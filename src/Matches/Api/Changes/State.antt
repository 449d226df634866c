-- ===== src/Matches/Api/Changes/State.antt =====
-- What a request leaves does not depend on whether its reply is modelled.
use foosball_api.Prelude.{◌≡◌, ℕ, refl, false, Option, none, some, String, arith}
use foosball_api.Http.{Result, ok, err}
use foosball_api.Auth.RefreshToken.{JwtPayload}
use foosball_api.Auth.Guards.{can_activate}
use foosball_api.Auth.Guards as Guard
use foosball_api.Matches.Orm.{Orm}
use foosball_api.Matches.World.{World}
use foosball_api.Matches.Requests.{
  Caller, Request, create_match, update_match, delete_match, add_players, submit_result,
  confirm_result, cancel_confirmation, admin_override_result, admin_delete_match, handle,
}
use foosball_api.Matches.Api.{roles_of, caller_of, as_user, guarded, api_request}
use foosball_api.Matches.Api.Changes.{run_change, change_as, guarded_change, respond}

module _ (o : Orm) (now : ℕ) where
  run_change-state :
      (c : Caller) (q : Request) (w : World) → (run_change o now c q w).1 ≡ handle o now c q w
  unfolding run_change handle
  run_change-state c (create_match dto) w = refl
  run_change-state c (update_match m dto) w = ground arith
  run_change-state c (delete_match m) w = refl
  run_change-state c (add_players m dto) w = ground arith
  run_change-state c (submit_result m dto) w = ground arith
  run_change-state c (confirm_result m) w = refl
  run_change-state c (cancel_confirmation m) w = refl
  run_change-state c (admin_override_result m dto) w = ground arith
  run_change-state c (admin_delete_match m) w = refl

  change_as-state :
      (q : Request) (w : World) (user : Option JwtPayload)
      → (change_as o now q w user).1 ≡ as_user o now q w user
  change_as-state q w none = refl
  change_as-state q w (some p) = run_change-state (caller_of p) q w

  guarded-state :
      (q : Request) (w : World) (r : Result Guard.Request)
      → (guarded_change o now q w r).1 ≡ guarded o now q w r
  guarded-state q w (err e) = refl
  guarded-state q w (ok r) = change_as-state q w r.user

  pub respond-state :
      (verify : String → Option JwtPayload) (authorization : Option String) (q : Request)
      (w : World)
      → (respond o now verify authorization q w).1 ≡ api_request o now q w verify authorization
  unfolding respond api_request
  respond-state verify authorization q w = guarded-state q w (
      can_activate verify false (roles_of q)
        (record { authorization = authorization; user = none }))
