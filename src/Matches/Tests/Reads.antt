-- ===== src/Matches/Tests/Reads.antt =====
-- The theorems on the routes that read matches, at a match of two players.
use text.Mathlib.Text.{◌==◌ as str_eq}
use foosball_api.Prelude.{
  ◌≡◌, ◌↔◌, refl, true, false, Option, none, some, String, [], ◌∷◌, if◌then◌else◌,
}
use foosball_api.Http.{ok}
use foosball_api.Auth.RefreshToken.{JwtPayload}
use foosball_api.Auth.App.Guarded.{bearer}
use foosball_api.Matches.Pagination.{CursorCodec}
use foosball_api.Matches.World.{World}
use foosball_api.Matches.Confirmation.{
  ConfirmationStatusResult, confirm, pre_check, locked_vote, cast_vote, publish_confirmed,
  status_result, calculate_quorum,
}
use foosball_api.Matches.Api.Reads.{confirmation_status, read}
use foosball_api.Matches.Api.Reads.Exactly.{Readable, read_exactly}
use foosball_api.Matches.Api.Reads.Voted.{after_vote, vote_is_readable}
use foosball_api.Matches.Tests.Memory.{reliable, reliable_laws}
use foosball_api.Matches.Tests.Progress.{reliable-IsUp}
use foosball_api.Matches.Tests.Story.{awaiting_row, awaiting_world}

abbrev player : JwtPayload
player = record { sub = 2; email = "bob@example.org"; is_admin = false; azure_oid = "oid" }

abbrev verify : String → Option JwtPayload
verify token = if str_eq token "good" then some player else none

abbrev codec : CursorCodec
codec = record { encode = λ _. "e30="; decode = λ _. none }

read_exactly_example :
    ((read codec [] awaiting_world verify (some "Bearer good") (confirmation_status 1)).status
      ≡ 200)
    ↔ ((p : JwtPayload) × (bearer verify (some "Bearer good") ≡ some p)
        × Readable codec awaiting_world (confirmation_status 1) p)
read_exactly_example =
    read_exactly codec [] awaiting_world verify (some "Bearer good") (confirmation_status 1)

abbrev last_answer : ConfirmationStatusResult
last_answer = record {
  match_id = 1;
  total_players = 2;
  confirmed_count = 2;
  quorum_required = 2;
  quorum_reached = true;
  confirmations = (2, 50) ∷ (1, 40) ∷ [];
}

abbrev voted_world : World
voted_world = (confirm reliable 50 1 2 awaiting_world).1

last_vote : confirm reliable 50 1 2 awaiting_world ≡ (ok last_answer, voted_world)
unfolding confirm pre_check locked_vote cast_vote publish_confirmed status_result calculate_quorum
last_vote = refl

vote_is_readable_example :
    read codec [] voted_world verify (some "Bearer good") (confirmation_status 1)
    ≡ after_vote last_answer
vote_is_readable_example =
    vote_is_readable reliable_laws reliable-IsUp codec [] verify (some "Bearer good") 50 1 2
      awaiting_row awaiting_world refl refl refl refl refl last_vote refl
