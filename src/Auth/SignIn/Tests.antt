-- ===== src/Auth/SignIn/Tests.antt =====
-- The theorems on signing in, sessions and logout at concrete requests.
use text.Mathlib.Text.{◌==◌ as str_eq}
use text.Mathlib.TextEquality.{eq_iff}
use foosball_api.Prelude.{
  some_eq, ◌==◌, ◌≡◌, ◌∙◌, refl, sym, ap, true, none, some, String, inl, inr, arith, Bool-cases,
  if◌then◌else◌,
}
use foosball_api.Http.{ok}
use foosball_api.Auth.RefreshToken.{issue_token_pair, RefreshToken, User, JwtPayload, TokenPair}
use foosball_api.Auth.Memory.{memory as tokens, memory_laws as revocable}
use foosball_api.Users.{upsert}
use foosball_api.Users.Memory.{memory as store, memory_laws as stored}
use foosball_api.Auth.SignIn.{sign_in, Claims, Azure, Accounts, exchange_code, handle_callback}
use foosball_api.Auth.SignIn.Session.{OwnRow, SignedIn, callback_signs_in}

abbrev claims : Claims
claims = record {
  oid = "oid";
  preferred_username = some "ada@example.com";
  email = "";
  name = some "Ada L.";
}

-- an identity provider that knows one code
abbrev azure : Azure
azure = record {
  web_redirect_uri = "https://app/callback";
  mobile_redirect_uri = "app://callback";
  get_auth_code_url = λ uri. some "https://login";
  acquire_token_by_code = λ code uri. if str_eq code "c1" then some (some claims) else none;
}

abbrev ada : User
ada = record {
  id = 4;
  azure_oid = "oid";
  email = "ada@example.org";
  display_name = "Ada";
  is_admin = true;
}

abbrev old_token : RefreshToken
old_token = record {
  id = 1;
  user_id = 4;
  token_hash = "old";
  expires_at = 1000;
  used_at = none;
  replaced_by = none;
}

abbrev accounts : Accounts
accounts = record {
  users = record {
    by_id = λ i. if i == 4 then some ada else none;
    by_oid = λ h. if str_eq "oid" h then some ada else none;
  };
  tokens = record {
    by_hash = λ h. if str_eq "old" h then some old_token else none;
    rows = 1;
    last_id = 1;
  };
}

abbrev sign : JwtPayload → String
sign p = p.email

abbrev after_callback : Accounts
after_callback = (handle_callback azure store tokens sign 500 "raw" "c1" "s" accounts).1

abbrev new_pair : TokenPair
new_pair = record { access_token = "ada@example.com"; refresh_token = "raw"; expires_in = 900 }

own_rows : (oid : String) → OwnRow accounts.users oid
own_rows oid x found = elim (Bool-cases (str_eq "oid" oid)) [
  | inl held ↦
      let this : ada ≡ x = some_eq (rw held at found) in
      ap (λ (u : User). u.azure_oid) (sym this) ∙ (eq_iff "oid" oid).0 held
  | inr other ↦ absurd (ground arith)
]

callback_signs_in_example :
    (c : Claims) × (u : User) × (exchange_code azure "c1" "s" "https://app/callback" ≡ ok c)
    × SignedIn tokens sign 500 600 c accounts new_pair after_callback u
unfolding handle_callback exchange_code sign_in upsert issue_token_pair
callback_signs_in_example =
    callback_signs_in azure stored revocable sign 500 600 "raw" "c1" "s" accounts {pair = new_pair}
      {a' = after_callback} own_rows refl
