-- ===== src/Leaderboard/Queries/PairWins.antt =====
-- What the pairs' query counts.
use foosball_api.Prelude.{
  Every-map, Every-of, Every, ℕ, ◌≤◌, ◌<◌, ◌≡◌, ◌∙◌, refl, ◌⊎◌, inl, inr, true, ◌&&◌, Option,
  String, ltb, ◌==◌, count, length, arith, Bool-cases,
}
use foosball_api.Events.{TimeFilter}
use foosball_api.Matches.Pagination.{take}
use foosball_api.Leaderboard.{PairWinEntry}
use foosball_api.Leaderboard.Queries.{
  Base, Named, RowOrder, pair_rows, same_pair, group_counts, get_start_date, pair_entry,
  get_pair_wins,
}
use foosball_api.Leaderboard.Queries.Ranking.{RowOrderLaws, rows-counted, rows-top}
use foosball_api.Leaderboard.Queries.Counting.{
  Descending, count-map, length-map, count-has, Descending-map, Descending-take, length-take-le,
}
use foosball_api.Leaderboard.Queries.Wins.{won_together}
use foosball_api.Leaderboard.Queries.UserRows.{Keyed, known}
use foosball_api.Leaderboard.Queries.PairRows.{
  ordered, pair_rows-count, same_pair_self, same_pair-equal,
}

-- what the query says of each pair: the number of matches won together
abbrev pub TruePair : Base → Option ℕ → PairWinEntry → Type 0
TruePair base start e =
    (e.wins ≡ won_together base start e.user_a_id e.user_b_id)
    × (1 ≤ e.wins)
    × (e.user_a_id < e.user_b_id)
    × (known base e.user_a_id e.user_a_name ≡ true)
    × (known base e.user_b_id e.user_b_name ≡ true)

module _ {base : Base} (keys : Keyed base) {order : RowOrder (Named × Named)}
    (laws : RowOrderLaws order) (now : ℕ) (filter : TimeFilter) (limit : ℕ) where
  good-TruePair :
      (start : Option ℕ) (k : Named × Named) {n : ℕ}
      → 1 ≤ n
      → n ≡ count (same_pair k) (pair_rows base start)
      → TruePair base start (pair_entry (k, n))
  good-TruePair start ((a, x), (b, y)) some_rows counted =
      let sum = pair_rows-count keys a x b y start in
      elim (Bool-cases (known base a x)) [
        | inr stranger ↦ absurd (ground (arith, stranger, sum, counted, some_rows))
        | inl one ↦ elim (Bool-cases (known base b y)) [
          | inr stranger ↦ absurd (ground (arith, one, stranger, sum, counted, some_rows))
          | inl two ↦ elim (Bool-cases (ltb a b)) [
            | inr above ↦ absurd (ground (arith, one, two, above, sum, counted, some_rows))
            | inl below ↦ (
              ground (arith, one, two, below, sum, counted),
              some_rows,
              ground (arith, below),
              one,
              two,
            )
          ]
        ]
      ]

  -- Where the tables have their primary keys, and the order of rows keeps them and sorts them by
  -- falling wins: the pairs' leaderboard has at most `limit` entries in descending order of wins.
  -- Each is of two users of the table with their stored names, the smaller id first, and its wins
  -- are the number, at least one, of matches in the period that are confirmed with two different
  -- scores and that both users played in the team with the greater score, whatever the type of the
  -- match.
  pub pair_wins_are_counted :
      Every (TruePair base (get_start_date now filter)) (get_pair_wins base order now filter limit)
      × Descending (λ (e : PairWinEntry). e.wins) (get_pair_wins base order now filter limit)
      × (length (get_pair_wins base order now filter limit) ≤ limit)
  unfolding get_pair_wins
  pair_wins_are_counted =
      let start = get_start_date now filter in
      let ks = pair_rows base start in
      let rows = take limit (order (group_counts same_pair ks)) in
      (
        Every-map (TruePair base start) pair_entry rows (
            Every-of (λ e (some_rows, counted). good-TruePair start e.0 some_rows counted) rows
              (rows-counted same_pair_self same_pair-equal laws limit ks)),
        Descending-map (λ (e : PairWinEntry). e.wins) pair_entry rows
            (Descending-take (λ (e : (Named × Named) × ℕ). e.1) limit
              (order (group_counts same_pair ks)) (laws.descending (group_counts same_pair ks))),
        omega (
          arith,
          length-map pair_entry rows,
          length-take-le limit (order (group_counts same_pair ks)),
        ),
      )

  -- Under the same conditions, two users of the table, the smaller id first, with their stored
  -- names, who won a match that counts together, are an entry of the pairs' leaderboard exactly
  -- once, with all these wins; or the leaderboard has `limit` entries, and each of them at least as
  -- many wins.
  pub pair_wins_top :
      (a : ℕ) (x : String) (b : ℕ) (y : String)
      → a < b
      → known base a x ≡ true
      → known base b y ≡ true
      → 1 ≤ won_together base (get_start_date now filter) a b
      → (count
            (λ (e : PairWinEntry).
              same_pair
                ((a, x), (b, y))
                ((e.user_a_id, e.user_a_name), (e.user_b_id, e.user_b_name))
              && e.wins == won_together base (get_start_date now filter) a b)
            (get_pair_wins base order now filter limit)
          ≡ 1)
        ⊎ ((length (get_pair_wins base order now filter limit) ≡ limit)
            × Every
                (λ (e : PairWinEntry). won_together base (get_start_date now filter) a b ≤ e.wins)
                (get_pair_wins base order now filter limit))
  unfolding get_pair_wins
  pair_wins_top a x b y below one two some_wins =
      let start = get_start_date now filter in
      let ks = pair_rows base start in
      let k : Named × Named = ((a, x), (b, y)) in
      let rows = take limit (order (group_counts same_pair ks)) in
      let held : ordered keys a x b y ≡ true = ground (arith, one, two, below) in
      let sum : count (same_pair k) ks ≡ won_together base start a b =
        pair_rows-count keys a x b y start ∙ rw held refl in
      elim (rows-top same_pair_self same_pair-equal laws limit ks k
        (count-has (same_pair k) ks (rw sum some_wins))) [
          | inl once ↦ inl (
              count-map
                (λ (e : PairWinEntry).
                  same_pair k ((e.user_a_id, e.user_a_name), (e.user_b_id, e.user_b_name))
                  && e.wins == won_together base start a b)
                pair_entry rows
              ∙ rw (← sum) once)
          | inr (full, above) ↦ inr (
            length-map pair_entry rows ∙ full,
            Every-map (λ (e : PairWinEntry). won_together base start a b ≤ e.wins) pair_entry rows
                (rw (← sum) above),
          )
        ]
