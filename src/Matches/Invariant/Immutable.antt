-- ===== src/Matches/Invariant/Immutable.antt =====
-- A confirmed match is changed by nobody but an administrator.
use foosball_api.Prelude.{
  ℕ, ◌≡◌, refl, Bool, true, false, ◌&&◌, Option, none, some, arith, if◌then◌else◌,
}
use foosball_api.Matches.Entity.{MatchRow, is_confirmed}
use foosball_api.Matches.Dto.{
  UpdateMatchDto, AddPlayersDto, SubmitResultDto, AdminOverrideResultDto,
}
use foosball_api.Matches.Orm.{Orm}
use foosball_api.Matches.World.{World}
use foosball_api.Matches.MatchService.{update, delete, add_players, submit_result}
use foosball_api.Matches.Confirmation.{pre_check, confirm, cancel_check, cancel}
use foosball_api.Matches.AdminOverride
use foosball_api.Matches.Requests.{
  Caller, Request, create_match, update_match, delete_match, add_players as add_players_request,
  submit_result as submit_result_request, confirm_result, cancel_confirmation,
  admin_override_result, admin_delete_match, handle, is_admin_request,
}

-- the match that a request is about
abbrev pub target : Request → Option ℕ
target (create_match dto) = none
target (update_match m dto) = some m
target (delete_match m) = some m
target (add_players_request m dto) = some m
target (submit_result_request m dto) = some m
target (confirm_result m) = some m
target (cancel_confirmation m) = some m
target (admin_override_result m dto) = some m
target (admin_delete_match m) = some m

-- For the match itself: every method of a player or creator leaves the whole world as it was.
module _ (o : Orm) (now m user : ℕ) {r : MatchRow} (w : World) (found : w.db.find_row m ≡ some r)
    (done : is_confirmed r.status ≡ true) where
  update-confirmed : (dto : UpdateMatchDto) → (update o m user dto w).1 ≡ w
  unfolding update
  update-confirmed dto = ground arith

  add_players-confirmed : (dto : AddPlayersDto) → (add_players o m user dto w).1 ≡ w
  unfolding add_players
  add_players-confirmed dto = ground arith

  submit_result-confirmed : (dto : SubmitResultDto) → (submit_result o now m user dto w).1 ≡ w
  unfolding submit_result
  submit_result-confirmed dto = ground arith

  confirm-confirmed : (confirm o now m user w).1 ≡ w
  unfolding confirm pre_check
  confirm-confirmed = ground arith

  cancel-confirmed : (cancel o now m user w).1 ≡ w
  unfolding cancel cancel_check
  cancel-confirmed = ground arith

  -- for anyone who is no administrator
  delete-refused : (is_admin : Bool) → is_admin ≡ false → (delete o m user is_admin w).1 ≡ w
  unfolding delete
  delete-refused is_admin stranger = ground arith

  pub override-refused :
      (is_admin : Bool) (dto : AdminOverrideResultDto)
      → is_admin ≡ false
      → (AdminOverride.override_result o now m user is_admin dto w).1 ≡ w
  unfolding AdminOverride.override_result
  override-refused is_admin dto stranger = ground arith

  delete_match-refused :
      (is_admin : Bool) → is_admin ≡ false → (AdminOverride.delete_match o m user is_admin w).1 ≡ w
  unfolding AdminOverride.delete_match
  delete_match-refused is_admin stranger = ground arith

same_match : {k m : ℕ} → ◌≡◌ {A = Option ℕ} (some k) (some m) → k ≡ m
same_match e = cc

same_if : (valid : Bool) (w w' : World) → w' ≡ w → (if valid then w' else w) ≡ w
same_if true w w' e = e
same_if false w w' e = refl

-- Once a match is confirmed, no request about it changes anything in the database or the queues,
-- whoever sends it, but for an administrator's on the routes for administrators: deletion and the
-- override of the result.
pub confirmed_is_immutable :
    (o : Orm) (now m : ℕ) (c : Caller) (q : Request) {r : MatchRow} (w : World)
    → w.db.find_row m ≡ some r
    → is_confirmed r.status ≡ true
    → target q ≡ some m
    → is_admin_request q && c.is_admin ≡ false
    → handle o now c q w ≡ w
unfolding handle
confirmed_is_immutable o now m c (create_match dto) w found done about plain = cc
confirmed_is_immutable o now m c (update_match k dto) w found done about plain =
    rw (same_match about) (same_if _ w _ (update-confirmed o now m c.sub w found done dto))
confirmed_is_immutable o now m c (delete_match k) w found done about plain =
    rw (same_match about) (delete-refused o now m c.sub w found done c.is_admin plain)
confirmed_is_immutable o now m c (add_players_request k dto) w found done about plain =
    rw (same_match about) (same_if _ w _ (add_players-confirmed o now m c.sub w found done dto))
confirmed_is_immutable o now m c (submit_result_request k dto) w found done about plain =
    rw (same_match about) (same_if _ w _ (submit_result-confirmed o now m c.sub w found done dto))
confirmed_is_immutable o now m c (confirm_result k) w found done about plain =
    rw (same_match about) (confirm-confirmed o now m c.sub w found done)
confirmed_is_immutable o now m c (cancel_confirmation k) w found done about plain =
    rw (same_match about) (cancel-confirmed o now m c.sub w found done)
confirmed_is_immutable o now m c (admin_override_result k dto) w found done about plain =
    rw (same_match about)
      (same_if _ w _ (override-refused o now m c.sub w found done c.is_admin dto plain))
confirmed_is_immutable o now m c (admin_delete_match k) w found done about plain =
    rw (same_match about) (delete_match-refused o now m c.sub w found done c.is_admin plain)
