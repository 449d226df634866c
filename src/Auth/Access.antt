-- ===== src/Auth/Access.antt =====
-- Who passes the guards.
use text.Mathlib.Text.{starts_with}
use foosball_api.Prelude.{
  ◌≡◌, ◌↔◌, true, false, Option, some, String, [], ◌∷◌, arith, Option-cases, Bool-cases, inl, inr,
}
use foosball_api.Http.{ok}
use foosball_api.Auth.RefreshToken.{JwtPayload}
use foosball_api.Auth.Guards.{Request, bearer_token, can_activate}

-- A route for administrators that is not public lets a request through exactly if it has a
-- header that begins with "Bearer ", the rest of it verifies, and the verified payload has the
-- admin flag; the handler then sees that payload as the user, whatever user the request had.
admin_route_exactly :
    (verify : String → Option JwtPayload) (r r' : Request)
    → (can_activate verify false ("admin" ∷ []) r ≡ ok r') ↔ (
        (header : String) × (p : JwtPayload) × (r.authorization ≡ some header)
        × (starts_with header "Bearer " ≡ true)
        × (verify (bearer_token header) ≡ some p)
        × (p.is_admin ≡ true)
        × (r' ≡ record r { user = some p }))
unfolding can_activate
admin_route_exactly verify r r' = (
  λ passed. elim (Option-cases r.authorization) [
    | inl absent ↦ ground arith
    | inr (header, given) ↦ elim (Bool-cases (starts_with header "Bearer ")) [
      | inr fails ↦ ground arith
      | inl begins ↦ elim (Option-cases (verify (bearer_token header))) [
        | inl bad ↦ ground arith
        | inr (p, good) ↦ elim (Bool-cases p.is_admin) [
          | inr fails ↦ ground arith
          | inl admin ↦ (header, p, given, begins, good, admin, ground arith)
        ]
      ]
    ]
  ],
  λ h. ground arith,
)
