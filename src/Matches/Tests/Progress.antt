-- ===== src/Matches/Tests/Progress.antt =====
-- The theorem on confirmations that reach the quorum at a match of two players.
use foosball_api.Prelude.{ℕ, ◌≡◌, refl, true, some, List, [], ◌∷◌, arith}
use foosball_api.Matches.Entity.{MatchRow, is_confirmed}
use foosball_api.Matches.Confirmation.{calculate_quorum}
use foosball_api.Matches.Confirmation.Voting.{IsUp}
use foosball_api.Matches.Confirmation.Progress.{confirm_all, quorum_confirms}
use foosball_api.Matches.Tests.Memory.{reliable, reliable_laws}
use foosball_api.Matches.Tests.Story.{awaiting_row, awaiting_world}

pub reliable-IsUp : IsUp reliable
reliable-IsUp = record {
  save_confirmation = λ m u now d. refl;
  save_match = λ r d. refl;
  commits = λ d. refl;
}

abbrev last_voter : List (ℕ × ℕ)
last_voter = (50, 2) ∷ []

quorum_confirms_example :
    (r : MatchRow) × ((confirm_all reliable 1 last_voter awaiting_world).db.find_row 1 ≡ some r)
    × (is_confirmed r.status ≡ true)
unfolding calculate_quorum
quorum_confirms_example =
    quorum_confirms reliable_laws reliable-IsUp 1 last_voter awaiting_row awaiting_world refl refl
      refl ((refl, refl), tt) (tt, tt) (omega arith) (omega arith)
