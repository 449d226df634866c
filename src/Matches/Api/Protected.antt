-- ===== src/Matches/Api/Protected.antt =====
-- Who can change a confirmed match over HTTP.
use text.Mathlib.Text.{starts_with}
use foosball_api.Prelude.{
  ℕ, ◌≡◌, ◌≢◌, ◌∙◌, ◌⊎◌, refl, true, false, ◌&&◌, Option, none, some, String, inl, inr, arith,
  Option-cases, Bool-cases,
}
use foosball_api.Auth.RefreshToken.{JwtPayload}
use foosball_api.Auth.Guards.{bearer_token}
use foosball_api.Matches.Entity.{MatchRow, is_confirmed}
use foosball_api.Matches.Orm.{Orm}
use foosball_api.Matches.World.{World}
use foosball_api.Matches.Requests.{Request, is_admin_request, handle}
use foosball_api.Matches.Invariant.Immutable.{target, confirmed_is_immutable}
use foosball_api.Matches.Api.{caller_of, api_request}

module _ (o : Orm) (now : ℕ) (q : Request) (w : World) (verify : String → Option JwtPayload) where
  no_header : api_request o now q w verify none ≡ w
  unfolding api_request
  no_header = refl

  module _ (header : String) where
    no_bearer :
        starts_with header "Bearer " ≡ false → api_request o now q w verify (some header) ≡ w
    unfolding api_request
    no_bearer other = ground arith

    unverified :
        starts_with header "Bearer " ≡ true
        → verify (bearer_token header) ≡ none
        → api_request o now q w verify (some header) ≡ w
    unfolding api_request
    unverified begins bad = ground arith

    verified :
        {p : JwtPayload}
        → starts_with header "Bearer " ≡ true
        → verify (bearer_token header) ≡ some p
        → (api_request o now q w verify (some header) ≡ w)
          ⊎ (api_request o now q w verify (some header) ≡ handle o now (caller_of p) q w)
    unfolding api_request
    verified {p} begins good = elim (Bool-cases (is_admin_request q)) [
      | inr plain ↦ inr (ground arith)
      | inl restricted ↦ elim (Bool-cases p.is_admin) [
        | inl admin ↦ inr (ground arith)
        | inr stranger ↦ inl (ground arith)
      ]
    ]

-- A request over HTTP about a confirmed match that changes anything, in the database or the queues,
-- bears a token that verifies and whose payload has the admin flag, and is one of the routes for
-- administrators: a deletion or the override of the result.
pub only_admins_change_confirmed :
    (o : Orm) (now m : ℕ) (q : Request) {r : MatchRow} (w : World)
    (verify : String → Option JwtPayload) (authorization : Option String)
    → w.db.find_row m ≡ some r
    → is_confirmed r.status ≡ true
    → target q ≡ some m
    → api_request o now q w verify authorization ≢ w
    → (header : String) × (p : JwtPayload) × (authorization ≡ some header)
      × (starts_with header "Bearer " ≡ true)
      × (verify (bearer_token header) ≡ some p)
      × (p.is_admin ≡ true)
      × (is_admin_request q ≡ true)
only_admins_change_confirmed o now m q w verify none found done about changes =
    absurd (changes (no_header o now q w verify))
only_admins_change_confirmed o now m q w verify (some header) found done about changes =
    elim (Bool-cases (starts_with header "Bearer ")) [
      | inr other ↦ absurd (changes (no_bearer o now q w verify header other))
      | inl begins ↦ elim (Option-cases (verify (bearer_token header))) [
        | inl bad ↦ absurd (changes (unverified o now q w verify header begins bad))
        | inr (p, good) ↦ elim (verified o now q w verify header begins good) [
          | inl refused ↦ absurd (changes refused)
          | inr served ↦ elim (Bool-cases (is_admin_request q && p.is_admin)) [
            | inr plain ↦ absurd (
                changes (
                  served ∙ confirmed_is_immutable o now m (caller_of p) q w found done about plain))
            | inl admin ↦
                (header, p, refl, begins, good, ground (arith, admin), ground (arith, admin))
          ]
        ]
      ]
    ]
