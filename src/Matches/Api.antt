-- ===== src/Matches/Api.antt =====
-- A request to the API that can change a match: the guards of apps/api (app.module.ts and the
-- `@Roles` of the routes), then the route as the user of the token.
pub mod Replies
pub mod Protected
pub mod Reads
pub mod Changes
use foosball_api.Prelude.{ℕ, Option, none, some, String, List, [], ◌∷◌, false, if◌then◌else◌}
use foosball_api.Http.{Result, ok, err}
use foosball_api.Auth.RefreshToken.{JwtPayload}
use foosball_api.Auth.Guards.{can_activate}
use foosball_api.Auth.Guards as Guard
use foosball_api.Matches.Orm.{Orm}
use foosball_api.Matches.World.{World}
use foosball_api.Matches.Requests.{Caller, Request, is_admin_request, handle}

abbrev pub roles_of : Request → List String
roles_of q = if is_admin_request q then "admin" ∷ [] else []

abbrev pub caller_of : JwtPayload → Caller
caller_of p = record { sub = p.sub; is_admin = p.is_admin }

module _ (o : Orm) (now : ℕ) (q : Request) (w : World) where
  abbrev pub as_user : Option JwtPayload → World
  as_user none = w
  as_user (some p) = handle o now (caller_of p) q w

  -- a guard that throws leaves everything as it was
  abbrev pub guarded : Result Guard.Request → World
  guarded (err e) = w
  guarded (ok r) = as_user r.user

  unfoldable pub api_request : (String → Option JwtPayload) → Option String → World
  unfolding can_activate
  api_request verify authorization = guarded (
      can_activate verify false (roles_of q)
        (record { authorization = authorization; user = none }))
