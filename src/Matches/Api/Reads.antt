-- ===== src/Matches/Api/Reads.antt =====
-- The routes of apps/api that only read matches (matches.controller.ts, admin.controller.ts),
-- behind the guards. An id or a query that does not parse as a number or a known word is left out.
pub mod Exactly
pub mod Voted
use foosball_api.Prelude.{
  ℕ, Bool, true, false, ◌&&◌, Option, none, some, String, List, [], ◌∷◌, leb, if◌then◌else◌,
}
use foosball_api.Http.{Result, ok, err, error}
use foosball_api.Auth.RefreshToken.{JwtPayload}
use foosball_api.Auth.Guards.{can_activate}
use foosball_api.Auth.Guards as Guard
use foosball_api.Matches.Pagination.{
  ListedMatch, ListMatchesDto, CursorCodec, PaginatedMatches, list_matches,
}
use foosball_api.Matches.Api.Replies.{
  Reply, page, detail, confirmations, audit_logs, thrown, invalid_input, catch, answer,
}
use foosball_api.Matches.World.{World}
use foosball_api.Matches.MatchService.{find_by_id}
use foosball_api.Matches.Confirmation.{get_status}
use foosball_api.Matches.AdminOverride.{get_audit_log}

pub data ReadRoute : Type 0 where
  match_list : ListMatchesDto → ReadRoute
  match_detail : ℕ → ReadRoute
  confirmation_status : ℕ → ReadRoute
  match_audit_log : ℕ → ReadRoute

-- `@IsOptional() @IsInt() @IsPositive()`, on a number that is a ℕ
unfoldable pub created_by_valid : Option ℕ → Bool
created_by_valid none = true
created_by_valid (some u) = leb 1 u

-- `@IsOptional() @IsInt() @Min(1) @Max(100)`
unfoldable pub limit_valid : Option ℕ → Bool
limit_valid none = true
limit_valid (some n) = leb 1 n && leb n 100

unfoldable pub list_valid : ListMatchesDto → Bool
unfolding created_by_valid limit_valid
list_valid dto = created_by_valid dto.created_by && limit_valid dto.limit

-- a cursor that does not parse throws an error that is no HttpException
abbrev pub listed : Option PaginatedMatches → Reply
listed none = catch (thrown error)
listed (some p) = answer page (ok p)

-- the roles that `@Roles` asks for
abbrev pub read_roles : ReadRoute → List String
read_roles (match_audit_log m) = "admin" ∷ []
read_roles q = []

-- `req.user.is_admin`
abbrev pub with_flag : Option JwtPayload → (Bool → Reply) → Reply
with_flag none f = catch (thrown error)
with_flag (some p) f = f p.is_admin

abbrev pub confirmation_reply : World → ℕ → Reply
confirmation_reply w m = answer confirmations (get_status m w).0

abbrev pub audit_reply : World → ℕ → Bool → Reply
audit_reply w m is_admin = answer audit_logs (get_audit_log m is_admin w).0

-- the database by the state of the services, and the list's query by its rows, newest first
module _ (codec : CursorCodec) (table : List ListedMatch) (w : World) where
  unfoldable pub run_read : ReadRoute → Option JwtPayload → Reply
  run_read (match_list dto) user =
      if list_valid dto then listed (list_matches codec dto table) else catch invalid_input
  run_read (match_detail m) user = answer detail (find_by_id m w).0
  run_read (confirmation_status m) user = confirmation_reply w m
  run_read (match_audit_log m) user = with_flag user (audit_reply w m)

  abbrev pub guarded : ReadRoute → Result Guard.Request → Reply
  guarded q (err e) = catch (thrown e)
  guarded q (ok r) = run_read q r.user

  unfoldable pub read : (String → Option JwtPayload) → Option String → ReadRoute → Reply
  unfolding can_activate run_read
  read verify authorization q = guarded q (
      can_activate verify false (read_roles q)
        (record { authorization = authorization; user = none }))
