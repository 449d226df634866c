-- ===== src/Matches/Requests.antt =====
-- The requests that reach the match services (apps/api: MatchesController, AdminController),
-- each run to its end, one after the other, after the validation of its body.
use foosball_api.Prelude.{ℕ, Bool, true, false, List, [], ◌∷◌, if◌then◌else◌}
use foosball_api.Matches.Dto.{
  CreateMatchDto, UpdateMatchDto, AddPlayersDto, SubmitResultDto, AdminOverrideResultDto,
  update_valid, submit_valid, add_players_valid, override_valid,
}
use foosball_api.Matches.Orm.{Orm}
use foosball_api.Matches.World.{World}
use foosball_api.Matches.MatchService
use foosball_api.Matches.Confirmation
use foosball_api.Matches.AdminOverride

-- The caller, `req.user`: the user's id and the admin flag of the token.
pub record Caller : Type 0 where
  pub sub : ℕ
  pub is_admin : Bool

-- the requests that can change a match
pub data Request : Type 0 where
  create_match : CreateMatchDto → Request
  update_match : ℕ → UpdateMatchDto → Request
  delete_match : ℕ → Request
  add_players : ℕ → AddPlayersDto → Request
  submit_result : ℕ → SubmitResultDto → Request
  confirm_result : ℕ → Request
  cancel_confirmation : ℕ → Request
  admin_override_result : ℕ → AdminOverrideResultDto → Request
  admin_delete_match : ℕ → Request

-- the routes with `@Roles('admin')`
abbrev pub is_admin_request : Request → Bool
is_admin_request (delete_match m) = true
is_admin_request (admin_override_result m dto) = true
is_admin_request (admin_delete_match m) = true
is_admin_request q = false

-- What a request leaves; its reply is not kept. A body that the ValidationPipe refuses reaches no
-- service.
module _ (o : Orm) where
  unfoldable pub handle : ℕ → Caller → Request → World → World
  handle now c (create_match dto) w = (MatchService.create o c.sub dto w).1
  handle now c (update_match m dto) w =
      if update_valid dto then (MatchService.update o m c.sub dto w).1 else w
  handle now c (delete_match m) w = (MatchService.delete o m c.sub c.is_admin w).1
  handle now c (add_players m dto) w =
      if add_players_valid dto then (MatchService.add_players o m c.sub dto w).1 else w
  handle now c (submit_result m dto) w =
      if submit_valid dto then (MatchService.submit_result o now m c.sub dto w).1 else w
  handle now c (confirm_result m) w = (Confirmation.confirm o now m c.sub w).1
  handle now c (cancel_confirmation m) w = (Confirmation.cancel o now m c.sub w).1
  handle now c (admin_override_result m dto) w =
      if override_valid dto
      then (AdminOverride.override_result o now m c.sub c.is_admin dto w).1
      else w
  handle now c (admin_delete_match m) w = (AdminOverride.delete_match o m c.sub c.is_admin w).1

  -- a history of requests with their times and callers
  unfoldable pub serve : List (ℕ × Caller × Request) → World → World
  unfolding handle
  serve [] w = w
  serve ((now, c, q) ∷ qs) w = serve qs (handle now c q w)
