-- ===== src/Leaderboard/Queries.antt =====
-- libs/leaderboard/src/leaderboard.repository.ts: the two queries over the tables that they read,
-- with the joins, the WHERE, the GROUP BY and the LIMIT of their SQL. The order that MySQL gives
-- to rows with equal wins is a parameter.
pub mod Counting
pub mod Ranking
pub mod Wins
pub mod UserRows
pub mod UserWins
pub mod PairRows
pub mod PairWins
pub mod Sorting
mod Tests
use text.Mathlib.Text.{◌==◌ as str_eq}
use foosball_api.Prelude.{
  ℕ, ◌-◌, ◌*◌, ◌≤◌, ◌≡◌, Bool, true, false, not, ◌&&◌, Option, none, some, String, List, [], ◌∷◌,
  ◌++◌, map, ltb, leb, ◌==◌, any, count, if◌then◌else◌,
}
use foosball_api.Events.{TimeFilter, week, month, year, total}
use foosball_api.Auth.RefreshToken.{User}
use foosball_api.Matches.Entity.{
  MatchRow, MatchPlayer, Team, team_a, team_b, is_confirmed, same_team,
}
use foosball_api.Matches.Pagination.{take}
use foosball_api.Leaderboard.{UserWinEntry, PairWinEntry}

-- the tables `matches`, `match_players` and `users`
pub record Base : Type 0 where
  pub matches : List MatchRow
  pub players : List MatchPlayer
  pub users : List User

abbrev pub day_ms : ℕ
day_ms = 86400000

-- `getStartDate`, where no clock change falls into the period
unfoldable pub get_start_date : ℕ → TimeFilter → Option ℕ
get_start_date now total = none
get_start_date now week = some (now - 7 * day_ms)
get_start_date now month = some (now - 30 * day_ms)
get_start_date now year = some (now - 365 * day_ms)

-- `m.score_a IS NOT NULL AND m.score_b IS NOT NULL AND m.score_a != m.score_b`
abbrev pub decided : Option ℕ → Option ℕ → Bool
decided (some a) (some b) = not (a == b)
decided _ _ = false

-- `AND m.confirmed_at >= ?`, where there is a start date
abbrev pub since : Option ℕ → Option ℕ → Bool
since none confirmed_at = true
since (some start) none = false
since (some start) (some t) = leb start t

-- the WHERE of both queries
unfoldable pub counts : Option ℕ → MatchRow → Bool
counts start m = is_confirmed m.status && decided m.score_a m.score_b && since start m.confirmed_at

-- the CASE expression
abbrev pub winning_team : Option ℕ → Option ℕ → Option Team
winning_team (some a) (some b) =
    if ltb b a then some team_a else if ltb a b then some team_b else none
winning_team _ _ = none

abbrev pub is_team : Option Team → Team → Bool
is_team none t = false
is_team (some w) t = same_team w t

-- the join of a match with its winners
unfoldable pub won_by : MatchRow → MatchPlayer → Bool
won_by m p = p.match_id == m.id && is_team (winning_team m.score_a m.score_b) p.team

module _ {A B : Type 0} where
  abbrev pub flat_map : (A → List B) → List A → List B
  flat_map f [] = []
  flat_map f (x ∷ xs) = f x ++ flat_map f xs

abbrev pub Named : Type 0
Named = ℕ × String

-- the join with `users`
unfoldable pub named : Base → ℕ → List Named
named base i =
    flat_map (λ (u : User). if u.id == i then (u.id, u.display_name) ∷ [] else []) base.users

unfoldable pub user_rows : Base → Option ℕ → List Named
unfolding counts won_by named
user_rows base start =
    flat_map
      (λ (m : MatchRow).
        if counts start m
        then flat_map (λ (p : MatchPlayer). if won_by m p then named base p.user_id else [])
            base.players
        else [])
      base.matches

-- the second join of a match with players: a team mate with a greater id
unfoldable pub mate : MatchRow → MatchPlayer → MatchPlayer → Bool
mate m p q = q.match_id == m.id && same_team p.team q.team && ltb p.user_id q.user_id

unfoldable pub named_pairs : Base → ℕ → ℕ → List (Named × Named)
unfolding named
named_pairs base i j =
    flat_map (λ (a : Named). flat_map (λ (b : Named). (a, b) ∷ []) (named base j)) (named base i)

unfoldable pub pair_rows : Base → Option ℕ → List (Named × Named)
unfolding counts won_by mate named_pairs
pair_rows base start =
    flat_map
      (λ (m : MatchRow).
        if counts start m
        then flat_map
            (λ (p : MatchPlayer).
              if won_by m p
              then flat_map
                  (λ (q : MatchPlayer).
                    if mate m p q then named_pairs base p.user_id q.user_id else [])
                  base.players
              else [])
            base.players
        else [])
      base.matches

abbrev pub same_named : Named → Named → Bool
same_named (i, x) (j, y) = i == j && str_eq x y

abbrev pub same_pair : Named × Named → Named × Named → Bool
same_pair (a, b) (c, d) = same_named a c && same_named b d

module _ {K : Type 0} (same : K → K → Bool) where
  unfoldable pub distinct : List K → List K
  distinct [] = []
  distinct (k ∷ ks) = let rest = distinct ks in if any (same k) ks then rest else k ∷ rest

  -- GROUP BY and COUNT(*): each key once, with the number of its rows
  unfoldable pub group_counts : List K → List (K × ℕ)
  unfolding distinct
  group_counts ks = map (λ k. (k, count (same k) ks)) (distinct ks)

-- ORDER BY wins DESC
abbrev pub RowOrder : Type 0 → Type 0
RowOrder K = List (K × ℕ) → List (K × ℕ)

abbrev pub user_entry : Named × ℕ → UserWinEntry
user_entry (u, n) = record { user_id = u.0; display_name = u.1; wins = n }

abbrev pub pair_entry : (Named × Named) × ℕ → PairWinEntry
pair_entry (pair, n) = record {
  user_a_id = pair.0.0;
  user_a_name = pair.0.1;
  user_b_id = pair.1.0;
  user_b_name = pair.1.1;
  wins = n;
}

unfoldable pub get_user_wins : Base → RowOrder Named → ℕ → TimeFilter → ℕ → List UserWinEntry
unfolding get_start_date user_rows group_counts
get_user_wins base order now filter limit =
    map user_entry
      (take limit (order (group_counts same_named (user_rows base (get_start_date now filter)))))

unfoldable pub get_pair_wins :
    Base → RowOrder (Named × Named) → ℕ → TimeFilter → ℕ → List PairWinEntry
unfolding get_start_date pair_rows group_counts
get_pair_wins base order now filter limit =
    map pair_entry
      (take limit (order (group_counts same_pair (pair_rows base (get_start_date now filter)))))
