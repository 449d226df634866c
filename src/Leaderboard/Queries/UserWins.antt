-- ===== src/Leaderboard/Queries/UserWins.antt =====
-- What the users' query counts.
use foosball_api.Prelude.{
  Every-map, Every-of, Every, ℕ, ◌≤◌, ◌≡◌, ◌∙◌, refl, ◌⊎◌, inl, inr, true, ◌&&◌, Option, String,
  ◌==◌, count, length, arith, Bool-cases,
}
use foosball_api.Events.{TimeFilter}
use foosball_api.Matches.Pagination.{take}
use foosball_api.Leaderboard.{UserWinEntry}
use foosball_api.Leaderboard.Queries.{
  Base, Named, RowOrder, user_rows, same_named, group_counts, get_start_date, user_entry,
  get_user_wins,
}
use foosball_api.Leaderboard.Queries.Wins.{matches_won}
use foosball_api.Leaderboard.Queries.Ranking.{RowOrderLaws, rows-counted, rows-top}
use foosball_api.Leaderboard.Queries.Counting.{
  Descending, Descending-map, Descending-take, length-take-le, count-map, length-map, count-has,
}
use foosball_api.Leaderboard.Queries.UserRows.{
  Keyed, known, same_named_self, same_named-equal, user_rows-count,
}

-- what the query says of each user: the number of matches won
abbrev pub TrueEntry : Base → Option ℕ → UserWinEntry → Type 0
TrueEntry base start e =
    (e.wins ≡ matches_won base start e.user_id)
    × (1 ≤ e.wins)
    × (known base e.user_id e.display_name ≡ true)

module _ {base : Base} (keys : Keyed base) {order : RowOrder Named} (laws : RowOrderLaws order)
    (now : ℕ) (filter : TimeFilter) (limit : ℕ) where
  good-TrueEntry :
      (start : Option ℕ) (k : Named) {n : ℕ}
      → 1 ≤ n
      → n ≡ count (same_named k) (user_rows base start)
      → TrueEntry base start (record { user_id = k.0; display_name = k.1; wins = n })
  good-TrueEntry start (v, x) some_rows counted =
      let sum = user_rows-count keys v x start in
      elim (Bool-cases (known base v x)) [
        | inl found ↦ (ground (arith, found, sum, counted), some_rows, found)
        | inr stranger ↦ absurd (ground (arith, stranger, sum, counted, some_rows))
      ]

  -- Where the tables have their primary keys, and the order of rows keeps them and sorts them by
  -- falling wins: the users' leaderboard has at most `limit` entries in descending order of wins.
  -- Each is of a user of the table with the stored name, and its wins are the number, at least one,
  -- of matches in the period that are confirmed with two different scores and that the user played
  -- in the team with the greater score.
  pub user_wins_are_counted :
      Every (TrueEntry base (get_start_date now filter)) (get_user_wins base order now filter limit)
      × Descending (λ (e : UserWinEntry). e.wins) (get_user_wins base order now filter limit)
      × (length (get_user_wins base order now filter limit) ≤ limit)
  unfolding get_user_wins
  user_wins_are_counted =
      let start = get_start_date now filter in
      let ks = user_rows base start in
      let rows = take limit (order (group_counts same_named ks)) in
      (
        Every-map (TrueEntry base start) user_entry rows (
            Every-of (λ e (some_rows, counted). good-TrueEntry start e.0 some_rows counted) rows
              (rows-counted same_named_self same_named-equal laws limit ks)),
        Descending-map (λ (e : UserWinEntry). e.wins) user_entry rows
            (Descending-take (λ (e : Named × ℕ). e.1) limit (order (group_counts same_named ks))
              (laws.descending (group_counts same_named ks))),
        omega (
          arith,
          length-map user_entry rows,
          length-take-le limit (order (group_counts same_named ks)),
        ),
      )

  -- Under the same conditions, a user of the table, with its stored name, who won a match that
  -- counts, is an entry of the users' leaderboard exactly once, with all these wins; or the
  -- leaderboard has `limit` entries, and each of them at least as many wins.
  pub user_wins_top :
      (v : ℕ) (x : String)
      → known base v x ≡ true
      → 1 ≤ matches_won base (get_start_date now filter) v
      → (count
            (λ (e : UserWinEntry).
              same_named (v, x) (e.user_id, e.display_name)
              && e.wins == matches_won base (get_start_date now filter) v)
            (get_user_wins base order now filter limit)
          ≡ 1)
        ⊎ ((length (get_user_wins base order now filter limit) ≡ limit)
            × Every
                (λ (e : UserWinEntry). matches_won base (get_start_date now filter) v ≤ e.wins)
                (get_user_wins base order now filter limit))
  unfolding get_user_wins
  user_wins_top v x there some_wins =
      let start = get_start_date now filter in
      let ks = user_rows base start in
      let rows = take limit (order (group_counts same_named ks)) in
      let sum : count (same_named (v, x)) ks ≡ matches_won base start v =
        user_rows-count keys v x start ∙ rw there refl in
      elim (rows-top same_named_self same_named-equal laws limit ks (v, x)
        (count-has (same_named (v, x)) ks (rw sum some_wins))) [
          | inl once ↦ inl (
              count-map
                (λ (e : UserWinEntry).
                  same_named (v, x) (e.user_id, e.display_name)
                  && e.wins == matches_won base start v)
                user_entry rows
              ∙ rw (← sum) once)
          | inr (full, above) ↦ inr (
            length-map user_entry rows ∙ full,
            Every-map (λ (e : UserWinEntry). matches_won base start v ≤ e.wins) user_entry rows
                (rw (← sum) above),
          )
        ]
