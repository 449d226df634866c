-- ===== src/Auth/Tests.antt =====
-- The theorems on tokens and guards at concrete requests.
use text.Mathlib.Text.{◌==◌ as str_eq}
use foosball_api.Prelude.{
  ℕ, ◌+◌, ◌≤◌, ◌≡◌, refl, true, Option, none, some, String, arith, Bool-cases, inl, inr,
  if◌then◌else◌,
}
use foosball_api.Http.{err, invalid_refresh_token, unauthorized_exception}
use foosball_api.Auth.RefreshToken.{
  RefreshToken, Tokens, User, JwtPayload, TokenPair, refresh_ttl_ms, validate, refresh,
}
use foosball_api.Auth.Rotation.{Accepted, refresh_rotates}
use foosball_api.Auth.Guards.{Request}
use foosball_api.Auth.Memory.{memory, memory_laws}

abbrev old_token : RefreshToken
old_token = record {
  id = 1;
  user_id = 4;
  token_hash = "old";
  expires_at = 1000;
  used_at = none;
  replaced_by = none;
}

abbrev table : Tokens
table = record {
  by_hash = λ h. if str_eq "old" h then some old_token else none;
  rows = 1;
  last_id = 1;
}

abbrev ada : User
ada = record {
  id = 4;
  azure_oid = "oid";
  email = "ada@example.org";
  display_name = "Ada";
  is_admin = true;
}

abbrev sign : JwtPayload → String
sign p = "jwt"

abbrev directory : ℕ → Option User
directory i = some ada

abbrev rotated : Tokens
rotated = (refresh memory sign directory 500 "new" "spare" "old" table).1

abbrev pair : TokenPair
pair = record { access_token = "jwt"; refresh_token = "new"; expires_in = 900 }

table_ids : (h : String) (t : RefreshToken) → table.by_hash h ≡ some t → t.id ≤ table.last_id
table_ids h t found = elim (Bool-cases (str_eq "old" h)) [
  | inl held ↦ ground arith
  | inr other ↦ ground arith
]

refresh_rotates_example :
    (pair.refresh_token ≡ "new")
    × (validate memory 600 "old" rotated
        ≡ (err (unauthorized_exception invalid_refresh_token), rotated))
    × (600 ≤ 500 + refresh_ttl_ms
        → Accepted memory 600 "new" rotated × Accepted memory 600 "spare" rotated)
    × (rotated.rows ≡ 2 + table.rows)
unfolding refresh
refresh_rotates_example =
    refresh_rotates memory_laws sign directory 500 600 "new" "spare" "old" table {pair = pair}
      {s' = rotated} table_ids refl

abbrev request : Request
request = record { authorization = some "Bearer abc"; user = none }

abbrev admin : JwtPayload
admin = record { sub = 4; email = "ada@example.org"; is_admin = true; azure_oid = "oid" }
