-- ===== src/Auth/Logout.antt =====
-- What a logout revokes.
use text.Mathlib.Text.{◌==◌ as str_eq}
use text.Mathlib.TextPositions.{eq_refl}
use foosball_api.Prelude.{ℕ, ◌≡◌, false, Option, none, some, String, inl, inr, arith, Option-cases}
use foosball_api.Http.{ok, err, invalid_refresh_token, unauthorized_exception}
use foosball_api.Auth.RefreshToken.{
  RefreshToken, Tokens, TokenStore, TokenLaws, mark_used_at, validate, logout,
}

validate_marked :
    (o : TokenStore) (later now : ℕ) (raw : String) (s : Tokens) (old : Option RefreshToken)
    → s.by_hash (o.sha256 raw) ≡ mark_used_at now old
    → validate o later raw s ≡ (err (unauthorized_exception invalid_refresh_token), s)
unfolding validate
validate_marked o later now raw s none found = ground arith
validate_marked o later now raw s (some t) found = ground arith

validate_same :
    (o : TokenStore) (later : ℕ) (raw : String) (s s' : Tokens)
    → s'.by_hash (o.sha256 raw) ≡ s.by_hash (o.sha256 raw)
    → (validate o later raw s').0 ≡ (validate o later raw s).0
unfolding validate
validate_same o later raw s s' same = ground arith

-- After a successful logout its token is refused at any time; a token with another hash
-- validates as it did before; and no row is added or dropped.
logout_revokes :
    {o : TokenStore} (laws : TokenLaws o) (now later : ℕ) (raw other : String) (s : Tokens)
    {s' : Tokens}
    → logout o now raw s ≡ (ok tt, s')
    → str_eq (o.sha256 raw) (o.sha256 other) ≡ false
    → (validate o later raw s' ≡ (err (unauthorized_exception invalid_refresh_token), s'))
      × ((validate o later other s').0 ≡ (validate o later other s).0)
      × (s'.rows ≡ s.rows)
unfolding logout
logout_revokes {o} laws now later raw other s {s'} done apart =
    elim (Option-cases (o.update_used_by_hash (o.sha256 raw) now s)) [
      | inl failed ↦ ground arith
      | inr (s'', marked) ↦
          let same : o.update_used_by_hash (o.sha256 raw) now s ≡ some s' = ground arith in
          let (rows, count) = laws.update_used_by_hash (o.sha256 raw) now s s' same in
          (
            validate_marked o later now raw s' (s.by_hash (o.sha256 raw))
                (rw (eq_refl (o.sha256 raw)) at (rows (o.sha256 raw))),
            validate_same o later other s s' (rw apart at (rows (o.sha256 other))),
            count,
          )
    ]
