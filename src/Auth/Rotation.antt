-- ===== src/Auth/Rotation.antt =====
-- Validity of refresh tokens, and their rotation.
use text.Mathlib.Text.{◌==◌ as str_eq}
use text.Mathlib.TextEquality.{eq_iff}
use text.Mathlib.TextPositions.{eq_refl}
use foosball_api.Prelude.{
  ℕ, ◌+◌, ◌≤◌, ◌==◌, ◌≡◌, ◌↔◌, refl, ap, ◌∙◌, false, Option, none, some, String, inl, inr, arith,
  Option-cases, Bool-cases, is_some, ltb, ◌||◌, ◌⊎◌,
}
use foosball_api.Http.{ok, err, invalid_refresh_token, unauthorized_exception}
use foosball_api.Auth.RefreshToken.{
  RefreshToken, Tokens, TokenStore, TokenLaws, User, JwtPayload, TokenPair, refresh_ttl_ms,
  jwt_payload, validate, refresh,
}

-- A token validates at a time exactly if its hash is stored in a row that is unused and not
-- expired by then, and validation returns that row; any other is refused with 401. The table is
-- never changed.
pub validate_exactly :
    (o : TokenStore) (now : ℕ) (raw : String) (s : Tokens) (t : RefreshToken)
    → ((validate o now raw s ≡ (ok t, s))
        ↔ ((s.by_hash (o.sha256 raw) ≡ some t) × (t.used_at ≡ none) × (now ≤ t.expires_at)))
      × (((t' : RefreshToken) × (validate o now raw s ≡ (ok t', s)))
          ⊎ (validate o now raw s ≡ (err (unauthorized_exception invalid_refresh_token), s)))
unfolding validate
validate_exactly o now raw s t = (
  (λ e. ground arith, λ h. ground arith),
  elim (Option-cases (s.by_hash (o.sha256 raw))) [
    | inl absent ↦ inr (ground arith)
    | inr (x, found) ↦ elim (Bool-cases (is_some x.used_at || ltb x.expires_at now)) [
      | inl refused ↦ inr (ground arith)
      | inr good ↦ inl (x, ground arith)
    ]
  ],
)

hash_ne :
    (s : Tokens) (g h : String) {t : RefreshToken}
    → s.by_hash g ≡ none
    → s.by_hash h ≡ some t
    → str_eq g h ≡ false
hash_ne s g h new old = ground (arith, eq_iff g h)

abbrev pub Accepted : TokenStore → ℕ → String → Tokens → Type 0
Accepted o now raw s = (t : RefreshToken) × (validate o now raw s ≡ (ok t, s))

-- the second row of a refresh keeps what the first one's hash finds
kept :
    {o : TokenStore} (laws : TokenLaws o) (users : ℕ) (now : ℕ) (raw raw' old : String)
    (s s₁ s₂ s₃ : Tokens) (t t₁ t₃ : RefreshToken)
    → s.by_hash (o.sha256 old) ≡ some t
    → t.id ≤ s.last_id
    → o.insert users (o.sha256 raw) (now + refresh_ttl_ms) s ≡ some (t₁, s₁)
    → o.update_used t.id now t₁.id s₁ ≡ some s₂
    → o.insert users (o.sha256 raw') (now + refresh_ttl_ms) s₂ ≡ some (t₃, s₃)
    → (s₃.by_hash (o.sha256 raw) ≡ some t₁)
      × (s₃.by_hash (o.sha256 old)
          ≡ some (record t { used_at = some now; replaced_by = some t₁.id }))
      × (s₃.by_hash (o.sha256 raw') ≡ some t₃)
      × (s₃.rows ≡ 2 + s.rows)
kept {o} laws u now raw raw' old s s₁ s₂ s₃ t t₁ t₃ found given first marked second =
    let i₁ = laws.insert u (o.sha256 raw) (now + refresh_ttl_ms) t₁ s s₁ first in
    let m = laws.update_used t.id now t₁.id s₁ s₂ marked in
    let i₃ = laws.insert u (o.sha256 raw') (now + refresh_ttl_ms) t₃ s₂ s₃ second in
    let ne₁ = hash_ne s (o.sha256 raw) (o.sha256 old) i₁.new_hash found in
    let raw₁ : s₁.by_hash (o.sha256 raw) ≡ some t₁ =
      rw (eq_refl (o.sha256 raw)) at (i₁.by_hash (o.sha256 raw)) in
    let old₁ : s₁.by_hash (o.sha256 old) ≡ some t =
      (rw ne₁ at (i₁.by_hash (o.sha256 old))) ∙ found in
    let ids : (t₁.id == t.id) ≡ false = ground (arith, i₁.new_id) in
    let raw₂ : s₂.by_hash (o.sha256 raw) ≡ some t₁ = m.0 (o.sha256 raw) ∙ rw raw₁ (rw ids refl) in
    let old₂ : s₂.by_hash (o.sha256 old)
        ≡ some (record t { used_at = some now; replaced_by = some t₁.id }) =
      m.0 (o.sha256 old) ∙ rw old₁ (ground arith) in
    (
      (rw (hash_ne s₂ (o.sha256 raw') (o.sha256 raw) i₃.new_hash raw₂) at
            (i₃.by_hash (o.sha256 raw)))
          ∙ raw₂,
      (rw (hash_ne s₂ (o.sha256 raw') (o.sha256 old) i₃.new_hash old₂) at
            (i₃.by_hash (o.sha256 old)))
          ∙ old₂,
      rw (eq_refl (o.sha256 raw')) at (i₃.by_hash (o.sha256 raw')),
      omega (arith, i₁.rows, m.1, i₃.rows),
    )

-- a fresh row validates until it expires
fresh_row :
    (o : TokenStore) (later : ℕ) (raw : String) (s : Tokens) (t : RefreshToken)
    → s.by_hash (o.sha256 raw) ≡ some t
    → t.used_at ≡ none
    → later ≤ t.expires_at
    → Accepted o later raw s
fresh_row o later raw s t found unused live =
    (t, (validate_exactly o later raw s t).0.1 (found, unused, live))

-- a used row does not
used_row :
    (o : TokenStore) (later : ℕ) (raw : String) (s : Tokens) {t : RefreshToken} {at_time : ℕ}
    → s.by_hash (o.sha256 raw) ≡ some t
    → t.used_at ≡ some at_time
    → validate o later raw s ≡ (err (unauthorized_exception invalid_refresh_token), s)
unfolding validate
used_row o later raw s found used = ground arith

inserted_row :
    {o : TokenStore} (laws : TokenLaws o) (u : ℕ) (h : String) (expires : ℕ) (t : RefreshToken)
    (s s' : Tokens)
    → o.insert u h expires s ≡ some (t, s')
    → (t.used_at ≡ none) × (t.expires_at ≡ expires)
inserted_row laws u h expires t s s' done =
    let c = (laws.insert u h expires t s s' done).columns in
    (ap (λ (x : RefreshToken). x.used_at) c, ap (λ (x : RefreshToken). x.expires_at) c)

-- the branches of a refresh: it fails, or makes the three writes
pub refresh-cases :
    (o : TokenStore) (sign : JwtPayload → String) (users : ℕ → Option User) (now : ℕ)
    (raw raw' old : String) (s : Tokens) {pair : TokenPair} {s' : Tokens}
    → refresh o sign users now raw raw' old s ≡ (ok pair, s')
    → (t : RefreshToken) × (u : User) × (t₁ : RefreshToken) × (s₁ : Tokens) × (s₂ : Tokens)
      × (t₃ : RefreshToken) × (s.by_hash (o.sha256 old) ≡ some t)
      × (o.insert u.id (o.sha256 raw) (now + refresh_ttl_ms) s ≡ some (t₁, s₁))
      × (o.update_used t.id now t₁.id s₁ ≡ some s₂)
      × (o.insert u.id (o.sha256 raw') (now + refresh_ttl_ms) s₂ ≡ some (t₃, s'))
      × (pair.refresh_token ≡ raw)
      × (users t.user_id ≡ some u)
      × (pair.access_token ≡ sign (jwt_payload u))
unfolding refresh
refresh-cases o sign users now raw raw' old s {pair} {s'} done =
    elim (Option-cases (s.by_hash (o.sha256 old))) [
      | inl absent ↦ ground arith
      | inr (t, found) ↦ elim (Option-cases (users t.user_id)) [
        | inl absent ↦ ground arith
        | inr (u, known) ↦
            elim (Option-cases (o.insert u.id (o.sha256 raw) (now + refresh_ttl_ms) s)) [
              | inl failed ↦ ground arith
              | inr ((t₁, s₁), first) ↦ elim (Option-cases (o.update_used t.id now t₁.id s₁)) [
                | inl failed ↦ ground arith
                | inr (s₂, marked) ↦
                    elim (Option-cases (o.insert u.id (o.sha256 raw') (now + refresh_ttl_ms) s₂)) [
                      | inl failed ↦ ground arith
                      | inr ((t₃, s₃), second) ↦
                          let same : s₃ ≡ s' = ground arith in
                          (
                            t,
                            u,
                            t₁,
                            s₁,
                            s₂,
                            t₃,
                            found,
                            first,
                            marked,
                            rw (← same) second,
                            ground arith,
                            known,
                            ground arith,
                          )
                    ]
              ]
            ]
      ]
    ]

-- Where the sequence has given every id of the table, after a successful refresh the old token is
-- refused at any time, and the returned one validates until its 24 hours are over; so does the
-- second random token of the call, which nobody was given: the table has grown by two rows.
pub refresh_rotates :
    {o : TokenStore} (laws : TokenLaws o) (sign : JwtPayload → String) (users : ℕ → Option User)
    (now later : ℕ) (raw raw' old : String) (s : Tokens) {pair : TokenPair} {s' : Tokens}
    → ((h : String) (t : RefreshToken) → s.by_hash h ≡ some t → t.id ≤ s.last_id)
    → refresh o sign users now raw raw' old s ≡ (ok pair, s')
    → (pair.refresh_token ≡ raw)
      × (validate o later old s' ≡ (err (unauthorized_exception invalid_refresh_token), s'))
      × (later ≤ now + refresh_ttl_ms → Accepted o later raw s' × Accepted o later raw' s')
      × (s'.rows ≡ 2 + s.rows)
refresh_rotates {o} laws sign users now later raw raw' old s {pair} {s'} ids done =
    let (t, u, t₁, s₁, s₂, t₃, found, first, marked, second, given, known, signed) =
      refresh-cases o sign users now raw raw' old s done in
    let (raw_row, old_row, raw'_row, two) =
      kept laws u.id now raw raw' old s s₁ s₂ s' t t₁ t₃ found (ids (o.sha256 old) t found) first
        marked second in
    let (unused₁, expiry₁) =
      inserted_row laws u.id (o.sha256 raw) (now + refresh_ttl_ms) t₁ s s₁ first in
    let (unused₃, expiry₃) =
      inserted_row laws u.id (o.sha256 raw') (now + refresh_ttl_ms) t₃ s₂ s' second in
    (
      given,
      used_row o later old s' old_row refl,
      λ live. (
        fresh_row o later raw s' t₁ raw_row unused₁ (rw expiry₁ live),
        fresh_row o later raw' s' t₃ raw'_row unused₃ (rw expiry₃ live),
      ),
      two,
    )
