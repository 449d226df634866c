-- ===== src/Matches/Tests/Changes.antt =====
-- The theorem on refused requests, at a vote of a user who is no player.
use text.Mathlib.Text.{◌==◌ as str_eq}
use foosball_api.Prelude.{◌≡◌, false, Option, none, some, String, arith, if◌then◌else◌}
use foosball_api.Auth.RefreshToken.{JwtPayload}
use foosball_api.Matches.Confirmation.{confirm, pre_check}
use foosball_api.Matches.Requests.{confirm_result}
use foosball_api.Matches.Api.Replies.{catch}
use foosball_api.Matches.Api.Changes.{respond}
use foosball_api.Matches.Api.Changes.Clean.{client_error_is_harmless}
use foosball_api.Matches.Tests.Memory.{reliable}
use foosball_api.Matches.Tests.Story.{awaiting_world}

abbrev stranger : JwtPayload
stranger = record { sub = 7; email = "eve@example.org"; is_admin = false; azure_oid = "oid" }

abbrev verify : String → Option JwtPayload
verify token = if str_eq token "good" then some stranger else none

client_error_is_harmless_example :
    (respond reliable 50 verify (some "Bearer good") (confirm_result 1) awaiting_world).1
    ≡ awaiting_world
unfolding respond confirm pre_check catch
client_error_is_harmless_example =
    client_error_is_harmless reliable 50 verify (some "Bearer good") (confirm_result 1)
      awaiting_world (omega arith) (omega arith)
