-- ===== src/Flow/Tests.antt =====
-- The second vote on match 1, the worker's pass over its jobs, and the board of all time.
use foosball_api.Prelude.{
  ℕ, false, ◌&&◌, ◌≤◌, ◌≢◌, inl, inr, refl, sym, some_eq, some, none, [], ◌∷◌, Memᴰ, ◌==◌, count,
  arith, Bool-cases,
}
use foosball_api.Events.{total}
use foosball_api.Auth.RefreshToken.{User}
use foosball_api.Matches.Entity.{MatchPlayer, team_a}
use foosball_api.Matches.Confirmation.{
  ConfirmationStatusResult, confirm, pre_check, locked_vote, cast_vote, publish_confirmed,
  confirm_row, status_result,
}
use foosball_api.Matches.Tests.Memory.{reliable_laws}
use foosball_api.Matches.Tests.Story.{awaiting_row, awaiting_world, two_players, voted}
use foosball_api.Redis.{Cache}
use foosball_api.Redis.Memory.{memory, memory_laws}
use foosball_api.Leaderboard.{Json, CachedResult, UserRank, hit}
use foosball_api.Leaderboard.Queries.{Base, get_start_date, get_user_wins}
use foosball_api.Leaderboard.Queries.Sorting.{by_wins, by_wins_laws}
use foosball_api.Leaderboard.Queries.UserRows.{Keyed}
use foosball_api.Leaderboard.Queries.Wins.{matches_won}
use foosball_api.Leaderboard.Routes.{LeaderboardQueryDto, get_leaderboard_users}
use foosball_api.Worker.{process_leaderboard_invalidate}
use foosball_api.Flow.{process, consume, Shows}
use foosball_api.Flow.Boards.{OnBoard, quorum_reaches_board}

abbrev user : ℕ → User
user i = record { id = i; azure_oid = "oid"; email = ""; display_name = "Player"; is_admin = false }

abbrev base : Base
base = record {
  matches = confirm_row 50 awaiting_row ∷ [];
  players = two_players;
  users = user 1 ∷ user 2 ∷ [];
}

one_user : (i : ℕ) → count (λ (u : User). u.id == i) base.users ≤ 1
one_user i = elim (Bool-cases (1 == i)) [
  | inl one ↦ ground (arith, one)
  | inr not_one ↦ ground (arith, not_one)
]

one_player :
    (m u : ℕ) → count (λ (p : MatchPlayer). p.match_id == m && p.user_id == u) base.players ≤ 1
one_player m u = elim (Bool-cases (1 == u)) [
  | inl first ↦ ground (arith, first)
  | inr other ↦ ground (arith, other)
]

keyed : Keyed base
keyed = record { players = one_player; users = one_user }

shown : Shows base voted.db 1
unfolding confirm pre_check locked_vote cast_vote publish_confirmed
shown = record { row = λ r e. Memᴰ.head (sym (some_eq e)); players = λ p h. h }

-- a cache that holds a text under every key
abbrev warm : Cache
warm = record { lookup = λ _. some "{}" }

abbrev worked : Cache
worked = (consume "leaderboard" memory voted.jobs warm).1

abbrev json : Json (CachedResult UserRank)
json = record { stringify = λ _. ""; parse = λ _. none }

abbrev asked : LeaderboardQueryDto
asked = record { filter = none; limit = none }

abbrev answer : ConfirmationStatusResult
answer = status_result 1 two_players (voted.db.find_confirmations 1)

abbrev winner : MatchPlayer
winner = record { match_id = 1; user_id = 1; team = team_a; slot = 1; position = none }

quorum_reaches_board_example :
    let board =
      (get_leaderboard_users memory json 100 (get_user_wins base by_wins 100) asked worked).0 in
    (board.x_cache ≢ hit)
    × (1 ≤ matches_won base (get_start_date 100 total) 1)
    × OnBoard 1 "Player" (matches_won base (get_start_date 100 total) 1) 20 board.rows
unfolding confirm pre_check locked_vote cast_vote publish_confirmed status_result consume process
    process_leaderboard_invalidate get_start_date
quorum_reaches_board_example =
    quorum_reaches_board reliable_laws memory_laws json keyed by_wins_laws 50 100 1 2 awaiting_row
      awaiting_world {answer = answer} {w' = voted} warm {c' = worked} asked winner "Player" refl
      refl refl refl refl refl refl shown refl (Memᴰ.head refl) refl refl refl
