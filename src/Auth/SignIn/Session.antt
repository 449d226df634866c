-- ===== src/Auth/SignIn/Session.antt =====
-- What a sign-in hands out is what later requests accept.
use text.Mathlib.Text.{◌==◌ as str_eq}
use text.Mathlib.TextPositions.{eq_refl}
use foosball_api.Prelude.{
  some_eq, ℕ, ◌+◌, ◌≤◌, ◌≡◌, ◌∙◌, sym, ap, ◌||◌, Option, some, String, inl, inr, arith,
  Option-cases, Bool-cases,
}
use foosball_api.Http.{ok}
use foosball_api.Action.{Outcome-cases, Result-cases}
use foosball_api.Auth.RefreshToken.{
  RefreshToken, Tokens, TokenStore, TokenLaws, User, JwtPayload, TokenPair, refresh_ttl_ms,
  jwt_payload, validate, refresh, issue_token_pair,
}
use foosball_api.Auth.Rotation.{validate_exactly, refresh-cases}
use foosball_api.Users.{Users, UserStore, UserLaws, upsert}
use foosball_api.Users.Profile.{SameAccount, upsert_keeps_account}
use foosball_api.Auth.SignIn.{
  Claims, Azure, Accounts, upsert_input, exchange_code, sign_in, handle_callback, refresh_session,
}

module _ (tokens : TokenStore) (sign : JwtPayload → String) where
  sign_in-steps :
      (users : UserStore) (now : ℕ) (raw : String) (claims : Claims) (a : Accounts)
      {pair : TokenPair} {a' : Accounts}
      → sign_in users tokens sign now raw claims a ≡ (ok pair, a')
      → (u : User) × (upsert users (upsert_input claims) a.users ≡ (ok u, a'.users))
        × (issue_token_pair tokens sign now raw u a.tokens ≡ (ok pair, a'.tokens))
  unfolding sign_in
  sign_in-steps users now raw claims a {pair} {a'} done =
      elim (Outcome-cases (upsert users (upsert_input claims) a.users)) [
        | inr (e, us, failed) ↦ ground arith
        | inl (u, us, found) ↦
            elim (Outcome-cases (issue_token_pair tokens sign now raw u a.tokens)) [
              | inr (e, ts, failed) ↦ ground arith
              | inl (p, ts, issued) ↦ (u, ground arith, ground arith)
            ]
      ]

  issue_token_pair-inserts :
      (now : ℕ) (raw : String) (u : User) (s : Tokens) {pair : TokenPair} {s' : Tokens}
      → issue_token_pair tokens sign now raw u s ≡ (ok pair, s')
      → (pair.access_token ≡ sign (jwt_payload u))
        × (pair.refresh_token ≡ raw)
        × ((t : RefreshToken) × (tokens.insert u.id (tokens.sha256 raw) (now + refresh_ttl_ms) s
              ≡ some (t, s')))
  unfolding issue_token_pair
  issue_token_pair-inserts now raw u s done =
      elim (Option-cases (tokens.insert u.id (tokens.sha256 raw) (now + refresh_ttl_ms) s)) [
        | inl failed ↦ ground arith
        | inr ((t, s''), made) ↦ (ground arith, ground arith, (t, ground arith))
      ]

-- Tokens that are issued for a user are accepted: the refresh token validates until its 24 hours
-- are over, and stands for that user, of whom the access token is signed.
pub issue_token_pair-validate :
    {tokens : TokenStore} (laws : TokenLaws tokens) (sign : JwtPayload → String) (now later : ℕ)
    (raw : String) (u : User) (s : Tokens) {pair : TokenPair} {s' : Tokens}
    → issue_token_pair tokens sign now raw u s ≡ (ok pair, s')
    → (pair.access_token ≡ sign (jwt_payload u))
      × (t : RefreshToken) × (t.user_id ≡ u.id)
      × (later ≤ now + refresh_ttl_ms → validate tokens later pair.refresh_token s' ≡ (ok t, s'))
issue_token_pair-validate {tokens} laws sign now later raw u s {pair} {s'} done =
    let (signed, given, (t, made)) = issue_token_pair-inserts tokens sign now raw u s done in
    let i = laws.insert u.id (tokens.sha256 raw) (now + refresh_ttl_ms) t s s' made in
    let found : s'.by_hash (tokens.sha256 raw) ≡ some t =
      rw (eq_refl (tokens.sha256 raw)) at (i.by_hash (tokens.sha256 raw)) in
    (
      signed,
      t,
      ap (λ (x : RefreshToken). x.user_id) i.columns,
      λ live. rw given (
          (validate_exactly tokens later raw s' t).0.1 (
            found,
            ap (λ (x : RefreshToken). x.used_at) i.columns,
            rw (ap (λ (x : RefreshToken). x.expires_at) i.columns) live,
          )),
    )

abbrev pub OwnRow : Users → String → Type 0
OwnRow s oid = (x : User) → s.by_oid oid ≡ some x → x.azure_oid ≡ oid

-- what is left of a sign-in that gave tokens: its user, and the row of its refresh token
abbrev pub SignedIn :
    TokenStore
    → (JwtPayload → String)
    → ℕ
    → ℕ
    → Claims
    → Accounts
    → TokenPair
    → Accounts
    → User
    → Type 0
SignedIn tokens sign now later claims a pair a' u =
    (a'.users.by_oid claims.oid ≡ some u)
    × SameAccount (a.users.by_oid claims.oid) u
    × (pair.access_token ≡ sign (jwt_payload u))
    × ((t : RefreshToken) × (t.user_id ≡ u.id)
        × (later ≤ now + refresh_ttl_ms
            → validate tokens later pair.refresh_token a'.tokens ≡ (ok t, a'.tokens)))

pub sign_in-SignedIn :
    {users : UserStore} (ulaws : UserLaws users) {tokens : TokenStore} (tlaws : TokenLaws tokens)
    (sign : JwtPayload → String) (now later : ℕ) (raw : String) (claims : Claims) (a : Accounts)
    {pair : TokenPair} {a' : Accounts}
    → OwnRow a.users claims.oid
    → sign_in users tokens sign now raw claims a ≡ (ok pair, a')
    → (u : User) × SignedIn tokens sign now later claims a pair a' u
sign_in-SignedIn {users} ulaws {tokens} tlaws sign now later raw claims a {pair} {a'} own done =
    let (u, put, issued) = sign_in-steps tokens sign users now raw claims a done in
    let (stored, oid, email, name, account, others) =
      upsert_keeps_account ulaws (upsert_input claims) a.users own put in
    let (signed, t, same_user, accepted) =
      issue_token_pair-validate tlaws sign now later raw u a.tokens issued in
    (u, (stored, account, signed, (t, same_user, accepted)))

handle_callback-passes :
    (azure : Azure) (users : UserStore) (tokens : TokenStore) (sign : JwtPayload → String) (now : ℕ)
    (raw code state : String) (a : Accounts) {pair : TokenPair} {a' : Accounts}
    → handle_callback azure users tokens sign now raw code state a ≡ (ok pair, a')
    → (claims : Claims) × (exchange_code azure code state azure.web_redirect_uri ≡ ok claims)
      × (sign_in users tokens sign now raw claims a ≡ (ok pair, a'))
unfolding handle_callback
handle_callback-passes azure users tokens sign now raw code state a done =
    elim (Bool-cases (str_eq code "" || str_eq state "")) [
      | inl missing ↦ ground arith
      | inr given ↦ elim (Result-cases (exchange_code azure code state azure.web_redirect_uri)) [
        | inr (e, rejected) ↦ ground arith
        | inl (claims, accepted) ↦ (claims, accepted, ground arith)
      ]
    ]

-- Where each row found by an oid has that oid: a callback that succeeds had a code that Azure
-- exchanged; it stores the profile under the account's oid without touching who is an
-- administrator, signs the access token of that stored user, and gives a refresh token that
-- validates for that user until 24 hours have passed.
pub callback_signs_in :
    (azure : Azure) {users : UserStore} (ulaws : UserLaws users) {tokens : TokenStore}
    (tlaws : TokenLaws tokens) (sign : JwtPayload → String) (now later : ℕ)
    (raw code state : String) (a : Accounts) {pair : TokenPair} {a' : Accounts}
    → ((oid : String) → OwnRow a.users oid)
    → handle_callback azure users tokens sign now raw code state a ≡ (ok pair, a')
    → (claims : Claims) × (u : User) × (exchange_code azure code state azure.web_redirect_uri
        ≡ ok claims)
      × SignedIn tokens sign now later claims a pair a' u
callback_signs_in azure ulaws tlaws sign now later raw code state a own done =
    let (claims, accepted, rest) =
      handle_callback-passes azure _ _ sign now raw code state a done in
    let (u, signed) =
      sign_in-SignedIn ulaws tlaws sign now later raw claims a (own claims.oid) rest in
    (claims, u, accepted, signed)

refresh-signs :
    (tokens : TokenStore) (sign : JwtPayload → String) (known : ℕ → Option User) (now : ℕ)
    (raw raw' old : String) (s : Tokens) {t : RefreshToken} {u : User} {pair : TokenPair}
    {s' : Tokens}
    → validate tokens now old s ≡ (ok t, s)
    → known t.user_id ≡ some u
    → refresh tokens sign known now raw raw' old s ≡ (ok pair, s')
    → (pair.access_token ≡ sign (jwt_payload u)) × (pair.refresh_token ≡ raw)
refresh-signs tokens sign known now raw raw' old s {t} {u} valid known_user done =
    let (held, unused, live) = (validate_exactly tokens now old s t).0.0 valid in
    let (t', u', _, _, _, _, found, _, _, _, given, known', signed) =
      refresh-cases tokens sign known now raw raw' old s done in
    let same_row : t' ≡ t = cc in
    let same_user : u' ≡ u = some_eq (sym known' ∙ rw same_row known_user) in
    (rw (← same_user) signed, given)

-- A session goes on: if the refresh token of a pair validates for a user whom the table holds by
-- now, a successful refresh signs its access token of that user's row as it is now, and leaves
-- the users alone.
pub refresh_session_signs :
    (tokens : TokenStore) (sign : JwtPayload → String) (now : ℕ) (raw raw' old : String)
    (a : Accounts) (t : RefreshToken) (u : User) {pair : TokenPair} {a' : Accounts}
    → validate tokens now old a.tokens ≡ (ok t, a.tokens)
    → a.users.by_id t.user_id ≡ some u
    → refresh_session tokens sign now raw raw' old a ≡ (ok pair, a')
    → (pair.access_token ≡ sign (jwt_payload u)) × (a'.users ≡ a.users)
unfolding refresh_session
refresh_session_signs tokens sign now raw raw' old a t u valid known done =
    elim (Outcome-cases (refresh tokens sign a.users.by_id now raw raw' old a.tokens)) [
      | inr (e, ts, failed) ↦ ground arith
      | inl (p, ts, gave) ↦
          let signs =
            refresh-signs tokens sign a.users.by_id now raw raw' old a.tokens valid known gave in
          ground (arith, signs)
    ]
