-- ===== src/Auth/SignIn/Exchange.antt =====
-- The exchange of codes: what the two entries check, and how they fail.
use text.Mathlib.Text.{◌==◌ as str_eq}
use foosball_api.Prelude.{
  ℕ, ◌≡◌, ◌≢◌, refl, ◌⊎◌, true, false, ◌||◌, if◌then◌else◌, Bool-cases, none, some, String, inl,
  inr, Option-cases,
}
use foosball_api.Http.{
  err, error, invalid_callback, mobile_exchange_failed, bad_request, unauthorized_exception,
}
use foosball_api.Auth.RefreshToken.{TokenStore, JwtPayload}
use foosball_api.Users.{UserStore}
use foosball_api.Auth.SignIn.{
  Claims, Azure, Accounts, exchange_code, handle_callback, handle_mobile_exchange,
}

abbrev pub Refused : Azure → String → String → Type 0
Refused azure code uri =
    (claims : Claims) → azure.acquire_token_by_code code uri ≢ some (some claims)

exchange_code-state :
    (azure : Azure) (code s s' uri : String)
    → exchange_code azure code s uri ≡ exchange_code azure code s' uri
unfolding exchange_code
exchange_code-state azure code s s' uri = refl

exchange_code-Refused :
    (azure : Azure) (code state uri : String)
    → Refused azure code uri
    → exchange_code azure code state uri ≡ err error
unfolding exchange_code
exchange_code-Refused azure code state uri refused =
    elim (Option-cases (azure.acquire_token_by_code code uri)) [
      | inl rejected ↦ rw (rejected, exchange_code) refl
      | inr (none, null_result) ↦ rw (null_result, exchange_code) refl
      | inr (some claims, accepted) ↦ absurd (refused claims accepted)
    ]

module _ (azure : Azure) (users : UserStore) (tokens : TokenStore) (sign : JwtPayload → String)
    (now : ℕ) (raw code : String) (a : Accounts) where
  -- The two entries to the sign-in do not compare the `state` with anything: any two that are not
  -- empty give the same outcome.
  state_is_unchecked :
      (s s' : String)
      → str_eq s "" ≡ false
      → str_eq s' "" ≡ false
      → (handle_callback azure users tokens sign now raw code s a
          ≡ handle_callback azure users tokens sign now raw code s' a)
        × (handle_mobile_exchange azure users tokens sign now raw code s a
            ≡ handle_mobile_exchange azure users tokens sign now raw code s' a)
  unfolding handle_callback handle_mobile_exchange
  state_is_unchecked s s' given given' = (
    rw (given, given', exchange_code-state azure code s s' azure.web_redirect_uri) refl,
    rw (given, given', exchange_code-state azure code s s' azure.mobile_redirect_uri) refl,
  )

  -- Where the code or the state is missing, or Azure rejects the code or answers null for it, no
  -- user and no token is written: a missing code or state is a 400 at both entries; a refused
  -- exchange is a 401 at the mobile one and an error without a status at the web one.
  exchange_fails :
      (state : String)
      → ((str_eq code "" || str_eq state "") ≡ true)
        ⊎ (Refused azure code azure.web_redirect_uri × Refused azure code azure.mobile_redirect_uri)
      → (handle_callback azure users tokens sign now raw code state a ≡ (
        err (if str_eq code "" || str_eq state "" then bad_request invalid_callback else error),
        a,
      ))
        × (handle_mobile_exchange azure users tokens sign now raw code state a ≡ (
          err (
              if str_eq code "" || str_eq state ""
              then bad_request invalid_callback
              else unauthorized_exception mobile_exchange_failed),
          a,
        ))
  unfolding handle_callback handle_mobile_exchange
  exchange_fails state (inl missing) = (rw missing refl, rw missing refl)
  exchange_fails state (inr (web, mobile)) = elim (Bool-cases (str_eq code "" || str_eq state "")) [
    | inl missing ↦ (rw missing refl, rw missing refl)
    | inr given ↦ (
      rw (given, exchange_code-Refused azure code state azure.web_redirect_uri web) refl,
      rw (given, exchange_code-Refused azure code state azure.mobile_redirect_uri mobile) refl,
    )
  ]
