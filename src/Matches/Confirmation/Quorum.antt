-- ===== src/Matches/Confirmation/Quorum.antt =====
-- The quorum.
use foosball_api.Prelude.{ℕ, ◌*◌, ◌≤◌, ◌<◌, ◌≡◌, ◌≢◌, ◌↔◌, true, arith, length, List}
use foosball_api.Matches.Entity.{MatchPlayer, MatchConfirmation}
use foosball_api.Matches.Confirmation.{calculate_quorum, status_result}

-- The answer says that the quorum is reached exactly when more than half of the players have
-- confirmed; a match always needs one confirmation, and never more than its players if it has any.
pub quorum_is_majority :
    (m : ℕ) (players : List MatchPlayer) (confirmations : List MatchConfirmation)
    → (((status_result m players confirmations).quorum_reached ≡ true)
        ↔ (length players < 2 * length confirmations))
      × (1 ≤ calculate_quorum (length players))
      × (length players ≢ 0 → calculate_quorum (length players) ≤ length players)
unfolding status_result calculate_quorum
quorum_is_majority m players confirmations =
    ((λ e. ground arith, λ h. ground arith), omega arith, λ h. omega arith)
