-- ===== src/Auth/App/Guarded.antt =====
-- The guard in front of the routes of the auth application.
use text.Mathlib.Text.{starts_with}
use foosball_api.Prelude.{
  ◌≡◌, ◌∙◌, refl, ap, Bool, true, false, Option, none, some, String, inl, inr, arith, Bool-cases,
}
use foosball_api.Http.{unauthorized}
use foosball_api.Auth.RefreshToken.{TokenStore, JwtPayload}
use foosball_api.Auth.Guards.{verified, jwt_can_activate, bearer_token}
use foosball_api.Auth.SignIn.{Azure, Accounts}
use foosball_api.Users.{UserStore}
use foosball_api.Auth.App.{Route, reply, failure, is_public, Draws, guarded, serve}

-- the payload of the token that a request bears, if it verifies
abbrev pub bearer : (String → Option JwtPayload) → Option String → Option JwtPayload
bearer verify none = none
bearer verify (some header) = elim (starts_with header "Bearer ") [
  | true ↦ verify (bearer_token header)
  | false ↦ none
]

-- the guard of a route that is not public, by the token that the request bears
guard-bearer :
    (verify : String → Option JwtPayload) (authorization : Option String)
    → jwt_can_activate verify false (record { authorization = authorization; user = none })
      ≡ verified
          (record { authorization = authorization; user = none })
          (bearer verify authorization)
unfolding jwt_can_activate
guard-bearer verify none = refl
guard-bearer verify (some header) = elim (Bool-cases (starts_with header "Bearer ")) [
  | inl begins ↦ ground arith
  | inr fails ↦ ground arith
]

pub guard_of :
    (verify : String → Option JwtPayload) (authorization : Option String) {public : Bool}
    {user : Option JwtPayload}
    → public ≡ false
    → bearer verify authorization ≡ user
    → jwt_can_activate verify public (record { authorization = authorization; user = none })
      ≡ verified (record { authorization = authorization; user = none }) user
guard_of verify authorization {public} {user} closed known =
    ap (λ b. jwt_can_activate verify b (record { authorization = authorization; user = none }))
      closed
    ∙ guard-bearer verify authorization
    ∙ ap (verified (record { authorization = authorization; user = none })) known

module _ (azure : Azure) (users : UserStore) (tokens : TokenStore)
    (sign : JwtPayload → String) where
  -- A route that is not public answers 401 UNAUTHORIZED to a request without a token that verifies,
  -- and leaves users and tokens as they are.
  pub stranger_is_refused :
      (verify : String → Option JwtPayload) (d : Draws) (authorization : Option String)
      (route : Route) (a : Accounts)
      → is_public route ≡ false
      → bearer verify authorization ≡ none
      → serve azure users tokens sign verify d authorization route a
        ≡ (reply 401 (failure unauthorized), a)
  unfolding serve
  stranger_is_refused verify d authorization route a closed stranger =
      ap (guarded azure users tokens sign d route a) (guard_of verify authorization closed stranger)
