-- ===== src/Leaderboard/Queries/Tests.antt =====
-- The theorems on the leaderboards' queries at concrete tables.
use foosball_api.Prelude.{
  Every, ℕ, ◌≤◌, ◌≡◌, ◌⊎◌, refl, ◌&&◌, false, some, none, List, [], ◌∷◌, ◌==◌, count, length,
  get_or, inl, inr, arith, Bool-cases,
}
use foosball_api.Events.{week}
use foosball_api.Auth.RefreshToken.{User}
use foosball_api.Matches.Entity.{
  MatchRow, MatchPlayer, Team, team_a, team_b, one_v_one, confirmed, draft, MatchStatus,
}
use foosball_api.Redis.{Cache}
use foosball_api.Redis.Memory.{memory}
use foosball_api.Leaderboard.{
  Json, CachedResult, UserRank, UserWinEntry, PairWinEntry, user_rank, ranked_from,
  get_user_leaderboard, get_leaderboard, query_and_store,
}
use foosball_api.Leaderboard.Queries.{
  Base, pair_rows, named_pairs, distinct, same_named, same_pair, get_start_date, get_user_wins,
  get_pair_wins,
}
use foosball_api.Leaderboard.Queries.Counting.{Descending}
use foosball_api.Leaderboard.Queries.Sorting.{by_wins, by_wins_laws}
use foosball_api.Leaderboard.Queries.UserWins.{TrueEntry, user_wins_are_counted, user_wins_top}
use foosball_api.Leaderboard.Queries.UserRows.{Keyed}
use foosball_api.Leaderboard.Queries.Wins.{won, matches_won, won_together}
use foosball_api.Leaderboard.Queries.PairWins.{TruePair, pair_wins_are_counted, pair_wins_top}
use foosball_api.Leaderboard.Routes.{LeaderboardQueryDto, get_leaderboard_users}
use foosball_api.Leaderboard.Routes.Fresh.{fresh_board_counts}

abbrev user : ℕ → User
user i = record { id = i; azure_oid = "oid"; email = ""; display_name = "Player"; is_admin = false }

abbrev player : ℕ → ℕ → Team → ℕ → MatchPlayer
player m u team slot = record {
  match_id = m;
  user_id = u;
  team = team;
  slot = slot;
  position = none;
}

abbrev match_row : ℕ → MatchStatus → ℕ → MatchRow
match_row m status score = record {
  id = m;
  created_by = some 1;
  match_type = one_v_one;
  status = status;
  score_a = some score;
  score_b = some 5;
  confirmed_at = some 1000000000000;
  locked_at = none;
}

-- users 1 and 2 won two matches together as team A of a match of type 1v1, and user 3 one
abbrev base : Base
base = record {
  matches =
      match_row 1 confirmed 10
      ∷ match_row 2 confirmed 8
      ∷ match_row 3 confirmed 2
      ∷ match_row 4 draft 9
      ∷ [];
  players =
      player 1 1 team_a 1
      ∷ player 1 2 team_a 2
      ∷ player 2 1 team_a 1
      ∷ player 2 2 team_a 2
      ∷ player 3 3 team_b 1
      ∷ [];
  users = user 1 ∷ user 2 ∷ user 3 ∷ [];
}

one_user : (i : ℕ) → count (λ (u : User). u.id == i) base.users ≤ 1
one_user i = elim (Bool-cases (1 == i)) [
  | inl one ↦ ground (arith, one)
  | inr not_one ↦ elim (Bool-cases (2 == i)) [
    | inl two ↦ ground (arith, not_one, two)
    | inr not_two ↦ ground (arith, not_one, not_two)
  ]
]

one_player :
    (m u : ℕ) → count (λ (p : MatchPlayer). p.match_id == m && p.user_id == u) base.players ≤ 1
one_player m u = elim (Bool-cases (1 == m)) [
  | inl one ↦ elim (Bool-cases (1 == u)) [
    | inl first ↦ ground (arith, one, first)
    | inr other ↦ ground (arith, one, other)
  ]
  | inr not_one ↦ elim (Bool-cases (2 == m)) [
    | inl two ↦ elim (Bool-cases (1 == u)) [
      | inl first ↦ ground (arith, not_one, two, first)
      | inr other ↦ ground (arith, not_one, two, other)
    ]
    | inr not_two ↦ ground (arith, not_one, not_two)
  ]
]

keyed : Keyed base
keyed = record { players = one_player; users = one_user }

abbrev now : ℕ
now = 1000086400000

abbrev user_board : List UserWinEntry
user_board = get_user_wins base by_wins now week 2

abbrev pair_board : List PairWinEntry
pair_board = get_pair_wins base by_wins now week 2

user_wins_are_counted_example :
    Every (TrueEntry base (get_start_date now week)) user_board
    × Descending (λ (e : UserWinEntry). e.wins) user_board
    × (length user_board ≤ 2)
user_wins_are_counted_example = user_wins_are_counted keyed by_wins_laws now week 2

user_wins_top_example :
    (count
        (λ (e : UserWinEntry).
          same_named (3, "Player") (e.user_id, e.display_name)
          && e.wins == matches_won base (get_start_date now week) 3)
        user_board
      ≡ 1)
    ⊎ ((length user_board ≡ 2)
        × Every
            (λ (e : UserWinEntry). matches_won base (get_start_date now week) 3 ≤ e.wins)
            user_board)
unfolding get_start_date matches_won won
user_wins_top_example = user_wins_top keyed by_wins_laws now week 2 3 "Player" refl (omega arith)

pair_wins_are_counted_example :
    Every (TruePair base (get_start_date now week)) pair_board
    × Descending (λ (e : PairWinEntry). e.wins) pair_board
    × (length pair_board ≤ 2)
pair_wins_are_counted_example = pair_wins_are_counted keyed by_wins_laws now week 2

pair_wins_top_example :
    (count
        (λ (e : PairWinEntry).
          same_pair
            ((1, "Player"), (2, "Player"))
            ((e.user_a_id, e.user_a_name), (e.user_b_id, e.user_b_name))
          && e.wins == won_together base (get_start_date now week) 1 2)
        pair_board
      ≡ 1)
    ⊎ ((length pair_board ≡ 2)
        × Every
            (λ (e : PairWinEntry). won_together base (get_start_date now week) 1 2 ≤ e.wins)
            pair_board)
unfolding get_start_date won_together won
pair_wins_top_example =
    pair_wins_top keyed by_wins_laws now week 2 1 "Player" 2 "Player" (omega arith) refl refl
      (omega arith)

abbrev pair_of_a_duel : PairWinEntry
pair_of_a_duel = record {
  user_a_id = 1;
  user_a_name = "Player";
  user_b_id = 2;
  user_b_name = "Player";
  wins = 2;
}

-- a pair's wins in matches of type 1v1 count
duel_counts : pair_board ≡ pair_of_a_duel ∷ []
unfolding get_pair_wins pair_rows named_pairs distinct
duel_counts = refl

-- a cache whose texts are not read
abbrev json : Json (CachedResult UserRank)
json = record { stringify = λ _. ""; parse = λ _. none }

abbrev cold : Cache
cold = record { lookup = λ _. none }

abbrev asked : LeaderboardQueryDto
asked = record { filter = some week; limit = none }

fresh_board_counts_example :
    let answer =
      (get_leaderboard_users memory json now (get_user_wins base by_wins now) asked cold).0 in
    (answer.rows ≡ ranked_from user_rank 0 (get_user_wins base by_wins now week 20))
    × Every
        (λ (r : UserRank). r.wins ≡ matches_won base (get_start_date now week) r.user_id)
        answer.rows
    × (length answer.rows ≤ 20)
    × (get_or asked.limit 20 ≤ 100)
unfolding get_leaderboard_users get_user_leaderboard get_leaderboard query_and_store
fresh_board_counts_example =
    fresh_board_counts memory json keyed by_wins_laws now asked cold refl (λ e. cc)
