-- ===== src/Leaderboard/Queries/PairRows.antt =====
-- Counting the rows of the pairs' query.
use foosball_api.Prelude.{
  ℕ, ◌≤◌, ◌≡◌, ◌∙◌, refl, sym, ap, inl, inr, Bool, true, false, ◌&&◌, Option, none, some, String,
  List, [], ◌∷◌, ltb, ◌==◌, count, if◌then◌else◌, arith, Bool-cases,
}
use foosball_api.Matches.Entity.{MatchRow, MatchPlayer, Team, team_a, team_b, same_team}
use foosball_api.Leaderboard.Queries.{
  Base, Named, flat_map, counts, winning_team, is_team, won_by, mate, named, named_pairs, pair_rows,
  same_named, same_pair,
}
use foosball_api.Leaderboard.Queries.Wins.{
  won, won_together, won_by-won, won-decided, counts-decided, and_swap,
}
use foosball_api.Leaderboard.Queries.Counting.{
  total-cong, total-test, total-once, count-flat_map, count-any, count-le, count-none, count-cong,
}
use foosball_api.Leaderboard.Queries.UserRows.{
  Keyed, known, same_named_self, same_named-equal, named-count,
}

pub same_pair_self : (k : Named × Named) → same_pair k k ≡ true
same_pair_self (a, b) = ground (arith, same_named_self a, same_named_self b)

pub same_pair-equal : (j k : Named × Named) → same_pair j k ≡ true → j ≡ k
same_pair-equal (a, b) (c, d) same = elim (Bool-cases (same_named a c)) [
  | inl first ↦
      let one : a ≡ c = same_named-equal a c first in
      let two : b ≡ d = same_named-equal b d (ground (arith, first, same)) in cc
  | inr apart ↦ absurd (ground (arith, apart, same))
]

mate_of_winner :
    (w : Option Team) (t t' : Team) → is_team w t ≡ true → same_team t t' ≡ is_team w t'
mate_of_winner none t t' h = absurd (ground (arith, h))
mate_of_winner (some team_a) team_a t' h = refl
mate_of_winner (some team_b) team_b t' h = refl
mate_of_winner (some team_a) team_b t' h = absurd (ground (arith, h))
mate_of_winner (some team_b) team_a t' h = absurd (ground (arith, h))

mate-won_by :
    (m : MatchRow) (p q : MatchPlayer)
    → won_by m p ≡ true
    → mate m p q ≡ (won_by m q && ltb p.user_id q.user_id)
unfolding mate won_by
mate-won_by m p q winner =
    let w = winning_team m.score_a m.score_b in
    elim (Bool-cases (is_team w p.team)) [
      | inl on_team ↦
          let same = mate_of_winner w p.team q.team on_team in
          elim (Bool-cases (q.match_id == m.id)) [
            | inl here ↦ ground (arith, same, here)
            | inr elsewhere ↦ ground (arith, elsewhere)
          ]
      | inr off ↦ absurd (ground (arith, off, winner))
    ]

and_assoc : (r s t : Bool) → ((r && s) && t) ≡ (r && (s && t))
and_assoc true s t = refl
and_assoc false s t = refl

in_order :
    (r : Bool) (i j a b : ℕ)
    → ltb i j ≡ true
    → (r && (i == a && j == b)) ≡ (((r && ltb a b) && i == a) && j == b)
in_order false i j a b below = refl
in_order true i j a b below = elim (Bool-cases (i == a)) [
  | inr other ↦ ground (arith, other)
  | inl one ↦ elim (Bool-cases (j == b)) [
    | inr other ↦ ground (arith, one, other)
    | inl two ↦ ground (arith, one, two, below)
  ]
]

out_of_order :
    (r : Bool) (i j a b : ℕ) → ltb i j ≡ false → (((r && ltb a b) && i == a) && j == b) ≡ false
out_of_order false i j a b above = refl
out_of_order true i j a b above = elim (Bool-cases (i == a)) [
  | inr other ↦ ground (arith, other)
  | inl one ↦ elim (Bool-cases (j == b)) [
    | inr other ↦ ground (arith, one, other)
    | inl two ↦ ground (arith, one, two, above)
  ]
]

module _ (ka kb : Named) where
  pairs_with :
      (a : Named) (bs : List Named)
      → count (same_pair (ka, kb)) (flat_map (λ (b : Named). (a, b) ∷ []) bs)
        ≡ (if same_named ka a then count (same_named kb) bs else 0)
  pairs_with a [] = ground arith
  pairs_with a (b ∷ bs) = ground (arith, pairs_with a bs)

module _ {base : Base} (keys : Keyed base) (a : ℕ) (x : String) (b : ℕ) (y : String) where
  named_pairs-count :
      (i j : ℕ)
      → count (same_pair ((a, x), (b, y))) (named_pairs base i j)
        ≡ (if (known base a x && known base b y) && (i == a && j == b) then 1 else 0)
  unfolding named_pairs
  named_pairs-count i j =
      count-flat_map (same_pair ((a, x), (b, y)))
        (λ (c : Named). flat_map (λ (d : Named). (c, d) ∷ []) (named base j)) (named base i)
      ∙ total-cong (λ c. pairs_with (a, x) (b, y) c (named base j)) (named base i)
      ∙ total-cong (λ c. ground (arith, named-count keys b y j)) (named base i)
      ∙ total-once (known base b y && j == b) (same_named (a, x)) (named base i) single
      ∙ ground (arith, named-count keys a x i, count-any (same_named (a, x)) (named base i) single)
    where
      single : count (same_named (a, x)) (named base i) ≤ 1
      single = ground (arith, named-count keys a x i)

  won-once :
      (m : MatchRow) (v : ℕ)
      → count (λ (p : MatchPlayer). won_by m p && p.user_id == v) base.players ≤ 1
  unfolding won_by
  won-once m v = omega (arith, count-le (λ p h. in_match p h) base.players, keys.players m.id v)
    where
      in_match :
          (p : MatchPlayer)
          → (won_by m p && p.user_id == v) ≡ true
          → (p.match_id == m.id && p.user_id == v) ≡ true
      in_match p h = elim (Bool-cases (p.match_id == m.id)) [
        | inr other ↦ absurd (ground (arith, other, h))
        | inl hit ↦ elim (Bool-cases (p.user_id == v)) [
          | inl same ↦ ground (arith, hit, same)
          | inr apart ↦ elim (Bool-cases (is_team (winning_team m.score_a m.score_b) p.team)) [
            | inl _ ↦ absurd (ground (arith, apart, h))
            | inr _ ↦ absurd (ground (arith, apart, h))
          ]
        ]
      ]

  abbrev pub ordered : Bool
  ordered = (known base a x && known base b y) && ltb a b

  ordered_pairs :
      (i j : ℕ)
      → count (same_pair ((a, x), (b, y))) (if ltb i j then named_pairs base i j else [])
        ≡ (if (ordered && i == a) && j == b then 1 else 0)
  ordered_pairs i j = elim (Bool-cases (ltb i j)) [
    | inl below ↦ rw below (
        named_pairs-count i j
        ∙ ap (λ z. if z then 1 else 0) (in_order (known base a x && known base b y) i j a b below))
    | inr above ↦ rw above (
        ap (λ z. if z then 1 else 0)
          (sym (out_of_order (known base a x && known base b y) i j a b above)))
  ]

  -- the rows with a second player, of one that won
  second_rows :
      (m : MatchRow) (p q : MatchPlayer)
      → won_by m p ≡ true
      → count
          (same_pair ((a, x), (b, y)))
          (if mate m p q then named_pairs base p.user_id q.user_id else [])
        ≡ (if (ordered && p.user_id == a) && (won_by m q && q.user_id == b) then 1 else 0)
  second_rows m p q winner = elim (Bool-cases (won_by m q)) [
    | inr lost ↦ rw (mate-won_by m p q winner, lost) (ground arith)
    | inl won_it ↦ rw (mate-won_by m p q winner, won_it) (ordered_pairs p.user_id q.user_id)
  ]

  first_rows :
      (m : MatchRow) (p : MatchPlayer)
      → won_by m p ≡ true
      → count (same_pair ((a, x), (b, y))) (
          flat_map
            (λ (q : MatchPlayer). if mate m p q then named_pairs base p.user_id q.user_id else [])
            base.players)
        ≡ (if (ordered && p.user_id == a) && won base b m then 1 else 0)
  first_rows m p winner =
      count-flat_map (same_pair ((a, x), (b, y)))
        (λ (q : MatchPlayer). if mate m p q then named_pairs base p.user_id q.user_id else [])
        base.players
      ∙ total-cong (λ q. second_rows m p q winner) base.players
      ∙ total-once (ordered && p.user_id == a) (λ (q : MatchPlayer). won_by m q && q.user_id == b)
          base.players (won-once m b)
      ∙ ap (λ z. if (ordered && p.user_id == a) && z then 1 else 0) (won_by-won base b m)

  -- the rows of a match for a pair: one where both won it
  match_rows :
      (m : MatchRow)
      → count (same_pair ((a, x), (b, y))) (
          flat_map
            (λ (p : MatchPlayer).
              if won_by m p
              then flat_map
                  (λ (q : MatchPlayer).
                    if mate m p q then named_pairs base p.user_id q.user_id else [])
                  base.players
              else [])
            base.players)
        ≡ (if (ordered && won base b m) && won base a m then 1 else 0)
  match_rows m =
      let mates : MatchPlayer → List (Named × Named) = λ p.
        flat_map
          (λ (q : MatchPlayer). if mate m p q then named_pairs base p.user_id q.user_id else [])
          base.players in
      count-flat_map (same_pair ((a, x), (b, y)))
        (λ (p : MatchPlayer). if won_by m p then mates p else []) base.players
      ∙ total-cong
          (λ p. elim (Bool-cases (won_by m p)) [
            | inl winner ↦ rw winner (
                first_rows m p winner
                ∙ ap (λ z. if z then 1 else 0) (and_swap ordered (p.user_id == a) (won base b m)))
            | inr lost ↦ rw lost (ground arith)
          ])
          base.players
      ∙ total-once (ordered && won base b m) (λ (p : MatchPlayer). won_by m p && p.user_id == a)
          base.players (won-once m a)
      ∙ ap (λ z. if (ordered && won base b m) && z then 1 else 0) (won_by-won base a m)

  pub pair_rows-count :
      (start : Option ℕ)
      → count (same_pair ((a, x), (b, y))) (pair_rows base start)
        ≡ (if ordered then won_together base start a b else 0)
  unfolding pair_rows won_together
  pair_rows-count start =
      let inner : MatchRow → List (Named × Named) = λ m.
        flat_map
          (λ (p : MatchPlayer).
            if won_by m p
            then flat_map
                (λ (q : MatchPlayer).
                  if mate m p q then named_pairs base p.user_id q.user_id else [])
                base.players
            else [])
          base.players in
      count-flat_map (same_pair ((a, x), (b, y)))
        (λ (m : MatchRow). if counts start m then inner m else []) base.matches
      ∙ total-cong
          (λ m. elim (Bool-cases (counts start m)) [
            | inl in_time ↦ rw in_time (
                match_rows m
                ∙ ap (λ z. if z then 1 else 0) (and_assoc ordered (won base b m) (won base a m)))
            | inr out ↦ rw out (ground arith)
          ])
          base.matches
      ∙ total-test (λ m. counts start m && (ordered && (won base b m && won base a m))) base.matches
      ∙ elim (Bool-cases ordered) [
        | inl held ↦ rw held (
            count-cong
              (λ m.
                counts-decided start m (won base b m && won base a m)
                  (λ even. rw (won-decided base b m even) refl))
              base.matches)
        | inr fails ↦
            rw fails (count-none (λ m. counts start m && false) (λ m. ground arith) base.matches)
      ]
