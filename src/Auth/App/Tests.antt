-- ===== src/Auth/App/Tests.antt =====
-- The theorems on the routes of the auth application at concrete requests.
use text.Mathlib.Text.{◌==◌ as str_eq}
use foosball_api.Prelude.{◌==◌, none, some, String, Option, true, if◌then◌else◌}
use foosball_api.Auth.RefreshToken.{User, JwtPayload}
use foosball_api.Auth.Memory.{memory as tokens}
use foosball_api.Users.Memory.{memory as store, memory_laws as stored}
use foosball_api.Auth.SignIn.{Azure, Accounts}
use foosball_api.Auth.App.{Draws, update_profile, serve}
use foosball_api.Auth.App.Effects.{Effect, route_effects}
use foosball_api.Auth.App.Guarded.{bearer}

abbrev offline : Azure
offline = record {
  web_redirect_uri = "https://app/callback";
  mobile_redirect_uri = "app://callback";
  get_auth_code_url = λ uri. none;
  acquire_token_by_code = λ code uri. none;
}

abbrev ada : User
ada = record {
  id = 4;
  azure_oid = "oid";
  email = "ada@example.org";
  display_name = "Ada";
  is_admin = true;
}

abbrev accounts : Accounts
accounts = record {
  users = record {
    by_id = λ i. if i == 4 then some ada else none;
    by_oid = λ h. if str_eq "oid" h then some ada else none;
  };
  tokens = record { by_hash = λ h. none; rows = 0; last_id = 0 };
}

abbrev payload : JwtPayload
payload = record { sub = 4; email = "ada@example.org"; is_admin = true; azure_oid = "oid" }

abbrev verify : String → Option JwtPayload
verify token = if str_eq token "good" then some payload else none

abbrev draws : Draws
draws = record { now = 500; raw = "raw"; raw' = "spare" }

abbrev renaming_ends : Accounts
renaming_ends =
    (serve offline store tokens (λ _. "jwt") verify draws (some "Bearer good")
      (update_profile (some " Ada L. ")) accounts).1

route_effects_example :
    Effect
      (bearer verify (some "Bearer good"))
      (update_profile (some " Ada L. "))
      accounts
      renaming_ends
route_effects_example =
    route_effects offline stored tokens (λ _. "jwt") verify draws (some "Bearer good")
      (update_profile (some " Ada L. ")) accounts
