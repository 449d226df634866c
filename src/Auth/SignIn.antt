-- ===== src/Auth/SignIn.antt =====
-- libs/auth/src: azure-ad.service.ts, and the sign-in of auth.service.ts over the users' service
-- and the tokens. MSAL is a parameter.
pub mod Session
pub mod Exchange
mod Tests
use text.Mathlib.Text.{◌==◌ as str_eq}
use foosball_api.Prelude.{ℕ, Bool, ◌||◌, Option, none, some, String, get_or}
use foosball_api.Http.{
  Result, ok, err, error, invalid_callback, mobile_exchange_failed, bad_request,
  unauthorized_exception,
}
use foosball_api.Action.{Action, pure, ◌>>=◌, ◌>>◌, throw_if}
use foosball_api.Auth.RefreshToken.{
  Tokens, TokenStore, User, JwtPayload, TokenPair, issue_token_pair, refresh, logout,
}
use foosball_api.Users.{Users, UserStore, UpsertUserInput, upsert}

-- The claims of an ID token that are read. It has an `oid`, and an `email` where it has no
-- `preferred_username`.
pub record Claims : Type 0 where
  pub oid : String
  pub preferred_username : Option String
  pub email : String
  pub name : Option String

-- AzureAdService: its redirect URIs, and MSAL's client. A request that is rejected is `none`, and
-- `acquireTokenByCode` may also give null.
pub record Azure : Type 0 where
  pub web_redirect_uri : String
  pub mobile_redirect_uri : String
  pub get_auth_code_url : String → Option String
  -- code, redirect URI
  pub acquire_token_by_code : String → String → Option (Option Claims)

-- the two tables of the auth application
pub record Accounts : Type 0 where
  pub users : Users
  pub tokens : Tokens

module _ {A : Type 0} where
  abbrev pub on_users : Action Users A → Action Accounts A
  on_users m a = let (r, users) = m a.users in (r, record a { users = users })

  abbrev pub on_tokens : Action Tokens A → Action Accounts A
  on_tokens m a = let (r, tokens) = m a.tokens in (r, record a { tokens = tokens })

  abbrev pub from_result : Result A → Action Accounts A
  from_result r a = (r, a)

pub data Client : Type 0 where
  web mobile : Client

-- `exchangeCode`, which does not read the state
unfoldable pub exchange_code : Azure → String → String → String → Result Claims
exchange_code azure code state redirect_uri = elim (azure.acquire_token_by_code code redirect_uri) [
  | none ↦ err error
  | some none ↦ err error
  | some (some claims) ↦ ok claims
]

-- the `catch` around the exchange of the mobile application
abbrev pub or_exchange_failed : Result Claims → Result Claims
or_exchange_failed (ok claims) = ok claims
or_exchange_failed (err _) = err (unauthorized_exception mobile_exchange_failed)

abbrev pub upsert_input : Claims → UpsertUserInput
upsert_input claims =
    let email = get_or claims.preferred_username claims.email in
    record { azure_oid = claims.oid; email = email; display_name = get_or claims.name email }

unfoldable pub get_login_url : Azure → Client → Result String
get_login_url azure client =
    elim (azure.get_auth_code_url
      (elim client [ web ↦ azure.web_redirect_uri | mobile ↦ azure.mobile_redirect_uri ])) [
        | none ↦ err error
        | some url ↦ ok url
      ]

-- what both exchanges do with the claims
unfoldable pub sign_in :
    UserStore → TokenStore → (JwtPayload → String) → ℕ → String → Claims → Action Accounts TokenPair
sign_in users tokens sign now raw claims = do
  user ← on_users (upsert users (upsert_input claims))
  on_tokens (issue_token_pair tokens sign now raw user)

module _ (azure : Azure) (users : UserStore) (tokens : TokenStore)
    (sign : JwtPayload → String) where
  unfoldable pub handle_callback : ℕ → String → String → String → Action Accounts TokenPair
  handle_callback now raw code state = do
    throw_if (str_eq code "" || str_eq state "") (bad_request invalid_callback)
    claims ← from_result (exchange_code azure code state azure.web_redirect_uri)
    sign_in users tokens sign now raw claims

  unfoldable pub handle_mobile_exchange : ℕ → String → String → String → Action Accounts TokenPair
  handle_mobile_exchange now raw code state = do
    throw_if (str_eq code "" || str_eq state "") (bad_request invalid_callback)
    claims ←
        from_result (or_exchange_failed (exchange_code azure code state azure.mobile_redirect_uri))
    sign_in users tokens sign now raw claims

-- `refresh` with the users' table behind its lookup
unfoldable pub refresh_session :
    TokenStore → (JwtPayload → String) → ℕ → String → String → String → Action Accounts TokenPair
refresh_session tokens sign now raw raw' old a =
    on_tokens (refresh tokens sign a.users.by_id now raw raw' old) a

unfoldable pub logout_session : TokenStore → ℕ → String → Action Accounts (Unit {0})
logout_session tokens now raw = on_tokens (logout tokens now raw)
