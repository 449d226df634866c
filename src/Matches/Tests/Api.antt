-- ===== src/Matches/Tests/Api.antt =====
-- The theorem on requests about a confirmed match at an administrator's deletion.
use text.Mathlib.Text.{◌==◌ as str_eq, starts_with}
use foosball_api.Prelude.{◌≡◌, ◌≢◌, refl, ap, true, Option, none, some, String, if◌then◌else◌}
use foosball_api.Auth.RefreshToken.{JwtPayload}
use foosball_api.Auth.Guards.{bearer_token}
use foosball_api.Matches.World.{World}
use foosball_api.Matches.Requests.{admin_delete_match, is_admin_request, handle}
use foosball_api.Matches.AdminOverride
use foosball_api.Matches.Api.{api_request}
use foosball_api.Matches.Api.Protected.{only_admins_change_confirmed}
use foosball_api.Matches.Tests.Memory.{reliable}
use foosball_api.Matches.Tests.Story.{confirmed_world}

abbrev payload : JwtPayload
payload = record { sub = 9; email = "ada@example.org"; is_admin = true; azure_oid = "oid" }

abbrev verify : String → Option JwtPayload
verify token = if str_eq token "good" then some payload else none

deletion_changes :
    api_request reliable 70 (admin_delete_match 1) confirmed_world verify (some "Bearer good")
    ≢ confirmed_world
unfolding api_request handle AdminOverride.delete_match
deletion_changes e = let row = ap (λ (w : World). w.db.find_row 1) e in cc

only_admins_change_confirmed_example :
    (header : String) × (p : JwtPayload) × (some "Bearer good" ≡ some header)
    × (starts_with header "Bearer " ≡ true)
    × (verify (bearer_token header) ≡ some p)
    × (p.is_admin ≡ true)
    × (is_admin_request (admin_delete_match 1) ≡ true)
only_admins_change_confirmed_example =
    only_admins_change_confirmed reliable 70 1 (admin_delete_match 1) confirmed_world verify
      (some "Bearer good") refl refl refl deletion_changes
