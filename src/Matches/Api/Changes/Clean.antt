-- ===== src/Matches/Api/Changes/Clean.antt =====
-- A request that is refused leaves no trace.
use foosball_api.Prelude.{
  ◌≡◌, ◌<◌, ◌≤◌, ℕ, refl, Bool, true, false, Option, none, some, String, arith,
}
use foosball_api.Http.{Result, ok, err, error, http_exception}
use foosball_api.Matches.Dto.{
  CreateMatchDto, UpdateMatchDto, AddPlayersDto, SubmitResultDto, AdminOverrideResultDto,
}
use foosball_api.Matches.Orm.{Orm}
use foosball_api.Matches.World.{World}
use foosball_api.Matches.Confirmation.{
  pre_check, cast_vote, locked_vote, publish_confirmed, confirm, cancel_check, cancel_writes,
  cancel,
}
use foosball_api.Matches.AdminOverride.{override_writes, override_result, delete_match}
use foosball_api.Matches.MatchService.{create, update, delete, add_players, submit_result}
use foosball_api.Auth.RefreshToken.{JwtPayload}
use foosball_api.Auth.Guards.{can_activate}
use foosball_api.Auth.Guards as Guard
use foosball_api.Matches.Dto.{update_valid, submit_valid, add_players_valid, override_valid}
use foosball_api.Matches.Requests.{
  Caller, Request, create_match, update_match, delete_match as delete_match_request,
  add_players as add_players_request, submit_result as submit_result_request, confirm_result,
  cancel_confirmation, admin_override_result, admin_delete_match,
}
use foosball_api.Matches.Api.{roles_of, caller_of}
use foosball_api.Matches.Api.Replies.{
  Body, Reply, detail, confirmations, override, no_content, catch,
}
use foosball_api.Matches.Api.Changes.{
  replied, piped, run_change, change_as, guarded_change, respond,
}

-- an action that threw an HttpException below 500 has left the world as it was
abbrev pub IsClean : {A : Type 0} → World → Result A × World → Type 0
IsClean w (ok x, w') = Unit {0}
IsClean w (err error, w') = Unit {0}
IsClean w (err (http_exception status c), w') = status < 500 → w' ≡ w

module _ (o : Orm) (m user : ℕ) (w : World) where
  create-IsClean : (dto : CreateMatchDto) → IsClean w (create o user dto w)
  unfolding create
  create-IsClean dto = ground arith

  update-IsClean : (dto : UpdateMatchDto) → IsClean w (update o m user dto w)
  unfolding update
  update-IsClean dto = ground arith

  add_players-IsClean : (dto : AddPlayersDto) → IsClean w (add_players o m user dto w)
  unfolding add_players
  add_players-IsClean dto = ground arith

  submit_result-IsClean :
      (now : ℕ) (dto : SubmitResultDto) → IsClean w (submit_result o now m user dto w)
  unfolding submit_result
  submit_result-IsClean now dto = ground arith

  delete-IsClean : (is_admin : Bool) → IsClean w (delete o m user is_admin w)
  unfolding delete
  delete-IsClean is_admin = ground arith

  cancel-IsClean : (now : ℕ) → IsClean w (cancel o now m user w)
  unfolding cancel cancel_check cancel_writes
  cancel-IsClean now = ground arith

  confirm-IsClean : (now : ℕ) → IsClean w (confirm o now m user w)
  unfolding confirm pre_check locked_vote cast_vote publish_confirmed
  confirm-IsClean now = ground arith

  override-IsClean :
      (now : ℕ) (is_admin : Bool) (dto : AdminOverrideResultDto)
      → IsClean w (override_result o now m user is_admin dto w)
  unfolding override_result override_writes
  override-IsClean now is_admin dto = ground arith

  delete_match-IsClean : (is_admin : Bool) → IsClean w (delete_match o m user is_admin w)
  unfolding delete_match
  delete_match-IsClean is_admin = ground arith

-- a reply of a client's error, 400 to 499, comes with the world as it was
abbrev pub Harmless : World → Reply × World → Type 0
Harmless w (reply, w') = 400 ≤ reply.status → reply.status < 500 → w' ≡ w

replied-Harmless :
    {A : Type 0} (status : ℕ) (body : A → Body) (w : World) (x : Result A × World)
    → status < 400
    → IsClean w x
    → Harmless w (replied status body x)
unfolding catch
replied-Harmless status body w (ok a, w') success clean low high = absurd (omega arith)
replied-Harmless status body w (err error, w') success clean low high = absurd (omega arith)
replied-Harmless status body w (err (http_exception s c), w') success clean low high = clean high

piped-Harmless :
    (valid : Bool) (x : Reply × World) (w : World) → Harmless w x → Harmless w (piped valid x w)
piped-Harmless true x w h = h
piped-Harmless false x w h = λ low high. refl

module _ (o : Orm) (now : ℕ) (w : World) where
  run_change-Harmless : (c : Caller) (q : Request) → Harmless w (run_change o now c q w)
  unfolding run_change
  run_change-Harmless c (create_match dto) =
      replied-Harmless 201 detail w _ (omega arith) (create-IsClean o c.sub c.sub w dto)
  run_change-Harmless c (update_match m dto) =
      piped-Harmless (update_valid dto) _ w
        (replied-Harmless 200 detail w _ (omega arith) (update-IsClean o m c.sub w dto))
  run_change-Harmless c (delete_match_request m) =
      replied-Harmless 204 (λ _. no_content) w _ (omega arith)
        (delete-IsClean o m c.sub w c.is_admin)
  run_change-Harmless c (add_players_request m dto) =
      piped-Harmless (add_players_valid dto) _ w
        (replied-Harmless 200 detail w _ (omega arith) (add_players-IsClean o m c.sub w dto))
  run_change-Harmless c (submit_result_request m dto) =
      piped-Harmless (submit_valid dto) _ w
        (replied-Harmless 200 detail w _ (omega arith) (submit_result-IsClean o m c.sub w now dto))
  run_change-Harmless c (confirm_result m) =
      replied-Harmless 200 confirmations w _ (omega arith) (confirm-IsClean o m c.sub w now)
  run_change-Harmless c (cancel_confirmation m) =
      replied-Harmless 200 confirmations w _ (omega arith) (cancel-IsClean o m c.sub w now)
  run_change-Harmless c (admin_override_result m dto) = piped-Harmless (override_valid dto) _ w (
      replied-Harmless 200 override w _ (omega arith)
        (override-IsClean o m c.sub w now c.is_admin dto))
  run_change-Harmless c (admin_delete_match m) =
      replied-Harmless 204 (λ _. no_content) w _ (omega arith)
        (delete_match-IsClean o m c.sub w c.is_admin)

  guarded-Harmless :
      (q : Request) (r : Result Guard.Request) → Harmless w (guarded_change o now q w r)
  guarded-Harmless q (err e) = λ low high. refl
  guarded-Harmless q (ok r) = as_user-Harmless r.user
    where
      as_user-Harmless : (user : Option JwtPayload) → Harmless w (change_as o now q w user)
      as_user-Harmless none = λ low high. refl
      as_user-Harmless (some p) = run_change-Harmless (caller_of p) q

-- A request that can change a match and that the API answers with a client's error, a status from
-- 400 to 499, leaves the database and the queues as they were, whatever writes would fail.
pub client_error_is_harmless :
    (o : Orm) (now : ℕ) (verify : String → Option JwtPayload) (authorization : Option String)
    (q : Request) (w : World)
    → 400 ≤ (respond o now verify authorization q w).0.status
    → (respond o now verify authorization q w).0.status < 500
    → (respond o now verify authorization q w).1 ≡ w
unfolding respond
client_error_is_harmless o now verify authorization q w =
    guarded-Harmless o now w q (
      can_activate verify false (roles_of q)
        (record { authorization = authorization; user = none }))
