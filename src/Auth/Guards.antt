-- ===== src/Auth/Guards.antt =====
-- jwt-auth.guard.ts and roles.guard.ts, which NestJS runs in this order before a handler.
use Prim.Native.String.{slice, len}
use text.Mathlib.Text.{◌==◌ as str_eq, starts_with}
use foosball_api.Prelude.{
  Bool, true, false, not, ◌&&◌, ◌||◌, Option, none, some, String, List, [], ◌∷◌,
}
use foosball_api.Http.{
  Result, ok, err, unauthorized, forbidden_admin_required, unauthorized_exception, forbidden,
}
use foosball_api.Auth.RefreshToken.{JwtPayload}

-- `request.headers.authorization`, and `request.user` once the token was verified
pub record Request : Type 0 where
  pub authorization : Option String
  pub user : Option JwtPayload

-- `authHeader.slice(7)`
abbrev pub bearer_token : String → String
bearer_token header = slice header 7 (len header)

abbrev pub verified : Request → Option JwtPayload → Result Request
verified r none = err (unauthorized_exception unauthorized)
verified r (some p) = ok (record r { user = some p })

-- `verify` is the JWT library's, `none` where it throws
unfoldable pub jwt_can_activate : (String → Option JwtPayload) → Bool → Request → Result Request
jwt_can_activate verify true r = ok r
jwt_can_activate verify false r = elim r.authorization [
  | none ↦ err (unauthorized_exception unauthorized)
  | some header ↦ elim (starts_with header "Bearer ") [
    | true ↦ verified r (verify (bearer_token header))
    | false ↦ err (unauthorized_exception unauthorized)
  ]
]

abbrev pub includes : String → List String → Bool
includes x [] = false
includes x (r ∷ rs) = str_eq r x || includes x rs

abbrev pub has_admin : Option JwtPayload → Bool
has_admin none = false
has_admin (some p) = p.is_admin

abbrev pub roles_of_user : List String → Option JwtPayload → Request → Result Request
roles_of_user roles none r = err (forbidden forbidden_admin_required)
roles_of_user roles (some p) r = elim (includes "admin" roles && not p.is_admin) [
  | true ↦ err (forbidden forbidden_admin_required)
  | false ↦ ok r
]

unfoldable pub roles_can_activate : List String → Request → Result Request
roles_can_activate [] r = ok r
roles_can_activate (role ∷ roles) r = roles_of_user (role ∷ roles) r.user r

abbrev pub and_then : Result Request → (Request → Result Request) → Result Request
and_then (ok r) f = f r
and_then (err e) f = err e

-- the guards of a route
unfoldable pub can_activate :
    (String → Option JwtPayload) → Bool → List String → Request → Result Request
unfolding jwt_can_activate roles_can_activate
can_activate verify is_public roles r =
    and_then (jwt_can_activate verify is_public r) (roles_can_activate roles)
