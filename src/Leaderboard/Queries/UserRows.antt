-- ===== src/Leaderboard/Queries/UserRows.antt =====
-- Counting the rows of the users' query.
use text.Mathlib.Text.{◌==◌ as str_eq}
use text.Mathlib.TextPositions.{eq_refl}
use text.Mathlib.TextEquality.{eq_iff}
use foosball_api.Prelude.{
  ap, ℕ, ◌≤◌, ◌≡◌, ◌∙◌, refl, inl, inr, Bool, true, false, ◌&&◌, Option, String, List, [], ◌∷◌,
  ◌==◌, any, count, if◌then◌else◌, arith, Bool-cases,
}
use foosball_api.Auth.RefreshToken.{User}
use foosball_api.Matches.Entity.{MatchRow, MatchPlayer}
use foosball_api.Leaderboard.Queries.{
  Base, Named, flat_map, counts, won_by, named, user_rows, same_named,
}
use foosball_api.Leaderboard.Queries.Wins.{
  won, matches_won, won_by-won, won-decided, counts-decided,
}
use foosball_api.Leaderboard.Queries.Counting.{
  total-cong, total-test, count-flat_map, count-any, count-le, count-none, count-cong, any-none,
}

-- The primary keys of `match_players` and `users`.
pub record Keyed (base : Base) : Type 0 where
  pub players :
      (m u : ℕ) → count (λ (p : MatchPlayer). p.match_id == m && p.user_id == u) base.players ≤ 1
  pub users : (i : ℕ) → count (λ (u : User). u.id == i) base.users ≤ 1

-- is there a user with this id and this name
abbrev pub known : Base → ℕ → String → Bool
known base v x = any (λ (u : User). v == u.id && str_eq x u.display_name) base.users

pub same_named_self : (k : Named) → same_named k k ≡ true
same_named_self (i, x) = ground (arith, eq_refl x)

pub same_named-equal : (j k : Named) → same_named j k ≡ true → j ≡ k
same_named-equal (i, x) (j, y) same = elim (Bool-cases (str_eq x y)) [
  | inl equal ↦
      let ids : i ≡ j = ground (arith, same) in let names : x ≡ y = (eq_iff x y).0 equal in cc
  | inr apart ↦ absurd (ground (arith, same, apart))
]

module _ {base : Base} (keys : Keyed base) (v : ℕ) (x : String) where
  rows_of :
      (i : ℕ) (users : List User)
      → count
          (same_named (v, x))
          (flat_map (λ (u : User). if u.id == i then (u.id, u.display_name) ∷ [] else []) users)
        ≡ (if i == v then count (λ (u : User). v == u.id && str_eq x u.display_name) users else 0)
  rows_of i [] = ground arith
  rows_of i (u ∷ users) = ground (arith, rows_of i users)

  same_id : (u : User) → (v == u.id && str_eq x u.display_name) ≡ true → (u.id == v) ≡ true
  same_id u h = elim (Bool-cases (v == u.id)) [
    | inl hit ↦ ground (arith, hit)
    | inr other ↦ absurd (ground (arith, other, h))
  ]

  -- the rows of a player in the join with `users`
  pub named-count :
      (i : ℕ)
      → count (same_named (v, x)) (named base i) ≡ (if known base v x && i == v then 1 else 0)
  unfolding named
  named-count i =
      let single =
        count-any (λ (u : User). v == u.id && str_eq x u.display_name) base.users
          (omega (arith, count-le same_id base.users, keys.users v)) in
      ground (arith, rows_of i base.users, single)

  one_player :
      (m : MatchRow) (p : MatchPlayer)
      → (known base v x && (won_by m p && p.user_id == v)) ≡ true
      → (p.match_id == m.id && p.user_id == v) ≡ true
  unfolding won_by
  one_player m p h = elim (Bool-cases (known base v x)) [
    | inr stranger ↦ absurd (ground (arith, stranger, h))
    | inl found ↦ elim (Bool-cases (p.match_id == m.id)) [
      | inr other ↦ absurd (ground (arith, found, other, h))
      | inl hit ↦ elim (Bool-cases (p.user_id == v)) [
        | inl same ↦ ground (arith, hit, same)
        | inr apart ↦ elim (Bool-cases (won_by m p)) [
          | inl _ ↦ absurd (ground (arith, apart, h))
          | inr _ ↦ absurd (ground (arith, apart, h))
        ]
      ]
    ]
  ]

  -- the rows of a match for a user: one where the user won it
  match_rows :
      (m : MatchRow)
      → count (same_named (v, x)) (
          flat_map
            (λ (p : MatchPlayer). if won_by m p then named base p.user_id else [])
            base.players)
        ≡ (if any
              (λ (p : MatchPlayer). known base v x && (won_by m p && p.user_id == v))
              base.players
            then 1
            else 0)
  match_rows m =
      let wins : MatchPlayer → Bool = λ p. known base v x && (won_by m p && p.user_id == v) in
      count-flat_map (same_named (v, x))
        (λ (p : MatchPlayer). if won_by m p then named base p.user_id else []) base.players
      ∙ total-cong
          (λ p. elim (Bool-cases (won_by m p)) [
            | inl won_it ↦ rw won_it (named-count p.user_id)
            | inr lost ↦ ground (arith, lost)
          ])
          base.players
      ∙ total-test wins base.players
      ∙ count-any wins base.players
          (omega (arith, count-le (one_player m) base.players, keys.players m.id v))

  pub user_rows-count :
      (start : Option ℕ)
      → count (same_named (v, x)) (user_rows base start)
        ≡ (if known base v x then matches_won base start v else 0)
  unfolding user_rows matches_won
  user_rows-count start =
      let inner : MatchRow → List Named = λ m.
        flat_map (λ (p : MatchPlayer). if won_by m p then named base p.user_id else [])
          base.players in
      let wins : MatchRow → Bool = λ m.
        any (λ (p : MatchPlayer). known base v x && (won_by m p && p.user_id == v)) base.players in
      count-flat_map (same_named (v, x)) (λ (m : MatchRow). if counts start m then inner m else [])
        base.matches
      ∙ total-cong
          (λ m. elim (Bool-cases (counts start m)) [
            | inl in_time ↦ rw in_time (match_rows m)
            | inr out ↦ rw out refl
          ])
          base.matches
      ∙ total-test (λ m. counts start m && wins m) base.matches
      ∙ elim (Bool-cases (known base v x)) [
        | inl found ↦ rw found (
            count-cong
              (λ m.
                ap (λ z. counts start m && z) (won_by-won base v m)
                ∙ counts-decided start m (won base v m) (won-decided base v m))
              base.matches)
        | inr stranger ↦ rw stranger (
            count-none (λ m. counts start m && any (λ (p : MatchPlayer). false) base.players)
              (λ m.
                rw (any-none (λ (p : MatchPlayer). false) (λ _. refl) base.players) (ground arith))
              base.matches)
      ]
