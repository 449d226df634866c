-- ===== src/Auth/RefreshToken.antt =====
-- libs/auth/src: refresh-token.entity.ts, refresh-token.service.ts, and the parts of
-- token.service.ts and auth.service.ts that issue and exchange tokens. Times are milliseconds.
use text.Mathlib.Text.{◌==◌ as str_eq}
use foosball_api.Prelude.{
  ℕ, suc, ◌+◌, ◌*◌, ◌<◌, ◌≡◌, Bool, Option, none, some, String, ltb, ◌==◌, is_some, if◌then◌else◌,
}
use foosball_api.Http.{
  ok, err, error, invalid_refresh_token, user_not_found, unauthorized_exception, not_found,
}
use foosball_api.Action.{Action, pure, gets, or_throw, ◌>>=◌, ◌>>◌, throw_if}

pub record RefreshToken : Type 0 where
  pub id : ℕ
  pub user_id : ℕ
  pub token_hash : String
  pub expires_at : ℕ
  pub used_at : Option ℕ
  pub replaced_by : Option ℕ

-- The token table, by the answers of its queries: the row of a hash, which the unique index makes
-- one, the number of rows, and the last id that the sequence of the ids gave.
pub record Tokens : Type 0 where
  pub by_hash : String → Option RefreshToken
  pub rows : ℕ
  pub last_id : ℕ

-- What the service uses of the repository and of `crypto`: writes that may fail, and the hash.
pub record TokenStore : Type 0 where
  -- user, hash, expiry
  pub insert : ℕ → String → ℕ → Tokens → Option (RefreshToken × Tokens)
  -- id, `usedAt`, `replacedBy`
  pub update_used : ℕ → ℕ → ℕ → Tokens → Option Tokens
  -- hash, `usedAt`
  pub update_used_by_hash : String → ℕ → Tokens → Option Tokens
  pub sha256 : String → String

abbrev pub mark_used : ℕ → ℕ → ℕ → Option RefreshToken → Option RefreshToken
mark_used id used replaced none = none
mark_used id used replaced (some t) =
    some (if t.id == id then record t { used_at = some used; replaced_by = some replaced } else t)

abbrev pub mark_used_at : ℕ → Option RefreshToken → Option RefreshToken
mark_used_at used none = none
mark_used_at used (some t) = some (record t { used_at = some used })

pub record InsertedToken (user : ℕ) (hash : String) (expires : ℕ) (t : RefreshToken) (s s' : Tokens)
    : Type 0 where
  pub columns : t ≡ record {
    id = t.id;
    user_id = user;
    token_hash = hash;
    expires_at = expires;
    used_at = none;
    replaced_by = none;
  }
  pub new_hash : s.by_hash hash ≡ none
  pub new_id : s.last_id < t.id
  pub by_hash : (h : String) → s'.by_hash h ≡ (if str_eq hash h then some t else s.by_hash h)
  pub rows : s'.rows ≡ suc s.rows

-- the documented effect of each write that succeeds
pub record TokenLaws (o : TokenStore) : Type 0 where
  pub insert :
      (user : ℕ) (hash : String) (expires : ℕ) (t : RefreshToken) (s s' : Tokens)
      → o.insert user hash expires s ≡ some (t, s')
      → InsertedToken user hash expires t s s'
  pub update_used :
      (id used replaced : ℕ) (s s' : Tokens)
      → o.update_used id used replaced s ≡ some s'
      → ((h : String) → s'.by_hash h ≡ mark_used id used replaced (s.by_hash h))
        × (s'.rows ≡ s.rows)
  pub update_used_by_hash :
      (hash : String) (used : ℕ) (s s' : Tokens)
      → o.update_used_by_hash hash used s ≡ some s'
      → ((h : String)
          → s'.by_hash h ≡ (if str_eq hash h then mark_used_at used (s.by_hash h) else s.by_hash h))
        × (s'.rows ≡ s.rows)

-- `24 * 60 * 60 * 1000`
abbrev pub refresh_ttl_ms : ℕ
refresh_ttl_ms = 24 * 60 * 60 * 1000

pub record User : Type 0 where
  pub id : ℕ
  pub azure_oid : String
  pub email : String
  pub display_name : String
  pub is_admin : Bool

pub record JwtPayload : Type 0 where
  pub sub : ℕ
  pub email : String
  pub is_admin : Bool
  pub azure_oid : String

pub record TokenPair : Type 0 where
  pub access_token : String
  pub refresh_token : String
  pub expires_in : ℕ

abbrev pub jwt_payload : User → JwtPayload
jwt_payload u = record {
  sub = u.id;
  email = u.email;
  is_admin = u.is_admin;
  azure_oid = u.azure_oid;
}

abbrev pub insert_row : TokenStore → ℕ → String → ℕ → Action Tokens RefreshToken
insert_row o user hash expires s = elim (o.insert user hash expires s) [
  | none ↦ (err error, s)
  | some (t, s') ↦ (ok t, s')
]

abbrev pub write : (Tokens → Option Tokens) → Action Tokens (Unit {0})
write f s = elim (f s) [ none ↦ (err error, s) | some s' ↦ (ok tt, s') ]

module _ (o : TokenStore) where
  -- `raw` is what `crypto.randomBytes` gives
  unfoldable pub issue : ℕ → String → ℕ → ℕ → Action Tokens String
  issue now raw user ttl_ms = do t ← insert_row o user (o.sha256 raw) (now + ttl_ms); pure raw

  unfoldable pub validate : ℕ → String → Action Tokens RefreshToken
  validate now raw = do
    found ← gets (λ s. s.by_hash (o.sha256 raw))
    t ← or_throw found (unauthorized_exception invalid_refresh_token)
    throw_if (is_some t.used_at) (unauthorized_exception invalid_refresh_token)
    throw_if (ltb t.expires_at now) (unauthorized_exception invalid_refresh_token)
    pure t

  unfoldable pub rotate : ℕ → String → RefreshToken → ℕ → ℕ → Action Tokens String
  rotate now raw old_token user ttl_ms = do
    saved ← insert_row o user (o.sha256 raw) (now + ttl_ms)
    write (o.update_used old_token.id now saved.id)
    pure raw

  unfoldable pub invalidate : ℕ → String → Action Tokens (Unit {0})
  invalidate now raw = write (o.update_used_by_hash (o.sha256 raw) now)

  -- TokenService.issueTokenPair; `sign` is the JWT library's
  unfoldable pub issue_token_pair :
      (JwtPayload → String) → ℕ → String → User → Action Tokens TokenPair
  unfolding issue
  issue_token_pair sign now raw user = do
    refresh_token ← issue now raw user.id refresh_ttl_ms
    pure (record {
      access_token = sign (jwt_payload user);
      refresh_token = refresh_token;
      expires_in = 900;
    })

  -- AuthService.refresh; `users` answers UserService's `findById`, and `raw` and `raw'` are the
  -- two random tokens that the call draws, in their order
  unfoldable pub refresh :
      (JwtPayload → String)
      → (ℕ → Option User)
      → ℕ
      → String
      → String
      → String
      → Action Tokens TokenPair
  unfolding validate rotate issue_token_pair
  refresh sign users now raw raw' raw_refresh_token = do
    token ← validate now raw_refresh_token
    user ← or_throw (users token.user_id) (not_found user_not_found)
    new_raw ← rotate now raw token user.id refresh_ttl_ms
    pair ← issue_token_pair sign now raw' user
    pure (record { access_token = pair.access_token; refresh_token = new_raw; expires_in = 900 })

  -- AuthService.logout
  unfoldable pub logout : ℕ → String → Action Tokens (Unit {0})
  unfolding invalidate
  logout now raw = invalidate now raw
