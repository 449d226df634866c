-- ===== src/Matches/Api/Changes.antt =====
-- The replies of the routes of apps/api that can change a match (matches.controller.ts and
-- admin.controller.ts), behind the guards and the validation of the body, with what they leave.
pub mod Clean
pub mod State
use foosball_api.Prelude.{ℕ, Bool, Option, none, some, String, false, if◌then◌else◌}
use foosball_api.Http.{Result, ok, err, error}
use foosball_api.Auth.RefreshToken.{JwtPayload}
use foosball_api.Auth.Guards.{can_activate}
use foosball_api.Auth.Guards as Guard
use foosball_api.Matches.Dto.{update_valid, submit_valid, add_players_valid, override_valid}
use foosball_api.Matches.Orm.{Orm}
use foosball_api.Matches.World.{World}
use foosball_api.Matches.MatchService
use foosball_api.Matches.Confirmation
use foosball_api.Matches.AdminOverride
use foosball_api.Matches.Requests.{
  Caller, Request, create_match, update_match, delete_match, add_players, submit_result,
  confirm_result, cancel_confirmation, admin_override_result, admin_delete_match,
}
use foosball_api.Matches.Api.{roles_of, caller_of}
use foosball_api.Matches.Api.Replies.{
  Body, Reply, detail, confirmations, override, no_content, thrown, invalid_input, catch,
  answer_with,
}

-- the handler's result under its `@HttpCode`
abbrev pub replied : {A : Type 0} → ℕ → (A → Body) → Result A × World → Reply × World
replied status body (r, w) = (answer_with status body r, w)

-- the ValidationPipe before the handler
abbrev pub piped : Bool → Reply × World → World → Reply × World
piped valid x w = if valid then x else (catch invalid_input, w)

module _ (o : Orm) (now : ℕ) where
  unfoldable pub run_change : Caller → Request → World → Reply × World
  run_change c (create_match dto) w = replied 201 detail (MatchService.create o c.sub dto w)
  run_change c (update_match m dto) w =
      piped (update_valid dto) (replied 200 detail (MatchService.update o m c.sub dto w)) w
  run_change c (delete_match m) w =
      replied 204 (λ _. no_content) (MatchService.delete o m c.sub c.is_admin w)
  run_change c (add_players m dto) w =
      piped (add_players_valid dto) (replied 200 detail (MatchService.add_players o m c.sub dto w))
        w
  run_change c (submit_result m dto) w =
      piped (submit_valid dto) (replied 200 detail (MatchService.submit_result o now m c.sub dto w))
        w
  run_change c (confirm_result m) w =
      replied 200 confirmations (Confirmation.confirm o now m c.sub w)
  run_change c (cancel_confirmation m) w =
      replied 200 confirmations (Confirmation.cancel o now m c.sub w)
  run_change c (admin_override_result m dto) w =
      piped (override_valid dto)
        (replied 200 override (AdminOverride.override_result o now m c.sub c.is_admin dto w)) w
  run_change c (admin_delete_match m) w =
      replied 204 (λ _. no_content) (AdminOverride.delete_match o m c.sub c.is_admin w)

  -- a handler that finds no user reads a property of undefined
  abbrev pub change_as : Request → World → Option JwtPayload → Reply × World
  change_as q w none = (catch (thrown error), w)
  change_as q w (some p) = run_change (caller_of p) q w

  abbrev pub guarded_change : Request → World → Result Guard.Request → Reply × World
  guarded_change q w (err e) = (catch (thrown e), w)
  guarded_change q w (ok r) = change_as q w r.user

  unfoldable pub respond :
      (String → Option JwtPayload) → Option String → Request → World → Reply × World
  unfolding can_activate run_change
  respond verify authorization q w = guarded_change q w (
      can_activate verify false (roles_of q)
        (record { authorization = authorization; user = none }))
