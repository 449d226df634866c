-- ===== src/Auth/Memory.antt =====
-- A token table in memory, which meets the laws of the interface.
use mathlib.Core.Path.{subst}
use text.Mathlib.Text.{◌==◌ as str_eq}
use foosball_api.Prelude.{
  some_eq, ℕ, suc, ◌≡◌, refl, sym, ap, Option, none, some, String, arith, Option-cases, inl, inr,
  if◌then◌else◌, is_some,
}
use foosball_api.Auth.RefreshToken.{
  RefreshToken, Tokens, TokenStore, TokenLaws, InsertedToken, mark_used, mark_used_at,
}

abbrev new_token : ℕ → String → ℕ → Tokens → RefreshToken
new_token user hash expires s = record {
  id = suc s.last_id;
  user_id = user;
  token_hash = hash;
  expires_at = expires;
  used_at = none;
  replaced_by = none;
}

abbrev insert : ℕ → String → ℕ → Tokens → Option (RefreshToken × Tokens)
insert user hash expires s =
    if is_some (s.by_hash hash)
    then none
    else some (
      new_token user hash expires s,
      record {
        by_hash = λ h. if str_eq hash h then some (new_token user hash expires s) else s.by_hash h;
        rows = suc s.rows;
        last_id = suc s.last_id;
      },
    )

abbrev pub memory : TokenStore
memory = record {
  insert = insert;
  update_used = λ id used replaced s.
      some (record s { by_hash = λ h. mark_used id used replaced (s.by_hash h) });
  update_used_by_hash = λ hash used s. some (record s {
    by_hash = λ h. if str_eq hash h then mark_used_at used (s.by_hash h) else s.by_hash h;
  });
  sha256 = λ raw. raw;
}

inserted :
    (user : ℕ) (hash : String) (expires : ℕ) (t : RefreshToken) (s s' : Tokens)
    → insert user hash expires s ≡ some (t, s')
    → InsertedToken user hash expires t s s'
inserted user hash expires t s s' done = elim (Option-cases (s.by_hash hash)) [
  | inr (x, found) ↦ absurd (ground arith)
  | inl absent ↦
      subst (λ (x : RefreshToken × Tokens). InsertedToken user hash expires x.0 s x.1)
        (some_eq (rw absent at done))
        (record {
          columns = refl;
          new_hash = absent;
          new_id = omega arith;
          by_hash = λ h. refl;
          rows = refl;
        })
]

pub memory_laws : TokenLaws memory
memory_laws = record {
  insert = inserted;
  update_used = λ id used replaced s s' e. (
    λ h. ap (λ (x : Tokens). x.by_hash h) (sym (some_eq e)),
    ap (λ (x : Tokens). x.rows) (sym (some_eq e)),
  );
  update_used_by_hash = λ hash used s s' e. (
    λ h. ap (λ (x : Tokens). x.by_hash h) (sym (some_eq e)),
    ap (λ (x : Tokens). x.rows) (sym (some_eq e)),
  );
}
