-- ===== src/Leaderboard/Queries/Ranking.antt =====
-- The first rows of a grouped query in the order of their counts.
use mathlib.Core.Path.{subst}
use foosball_api.Prelude.{
  Every-map, Every, Every-of, ℕ, ◌≤◌, ◌≡◌, ◌∙◌, refl, sym, ◌⊎◌, inl, inr, Bool, true, false, not,
  ◌&&◌, ◌||◌, List, [], ◌∷◌, leb, ◌==◌, any, count, length, if◌then◌else◌, arith, Bool-cases,
}
use foosball_api.Matches.Pagination.{take}
use foosball_api.Leaderboard.Queries.{distinct, group_counts, RowOrder}
use foosball_api.Leaderboard.Queries.Counting.{
  Descending, Every-take, count-take-drop, Every-count, count-Every, Descending-bound, count-cong,
  count-map, any-count,
}

-- An ORDER BY gives the rows that it is given, with their multiplicities, in descending order.
pub record RowOrderLaws {K : Type 0} (order : RowOrder K) : Type 0 where
  pub same_rows : (p : K × ℕ → Bool) (rows : List (K × ℕ)) → count p (order rows) ≡ count p rows
  pub descending : (rows : List (K × ℕ)) → Descending (λ (e : K × ℕ). e.1) (order rows)

or_true : (a : Bool) {b : Bool} → b ≡ true → (a || b) ≡ true
or_true true h = refl
or_true false h = h

module _ {K : Type 0} {same : K → K → Bool} (same-self : (k : K) → same k k ≡ true)
    (same-equal : (j k : K) → same j k ≡ true → j ≡ k) where
  count-distinct :
      (k : K) (ks : List K) → count (same k) (distinct same ks) ≡ (if any (same k) ks then 1 else 0)
  unfolding distinct
  count-distinct k [] = refl
  count-distinct k (x ∷ ks) = elim (Bool-cases (any (same x) ks)) [
    | inl seen ↦ elim (Bool-cases (same k x)) [
      | inl hit ↦
          let seen_k : any (same k) ks ≡ true =
            subst (λ z. any (same z) ks ≡ true) (sym (same-equal k x hit)) seen in
          ground (arith, seen, seen_k, hit, count-distinct k ks)
      | inr other ↦ ground (arith, seen, other, count-distinct k ks)
    ]
    | inr fresh ↦ elim (Bool-cases (same k x)) [
      | inl hit ↦
          let fresh_k : any (same k) ks ≡ false =
            subst (λ z. any (same z) ks ≡ false) (sym (same-equal k x hit)) fresh in
          ground (arith, fresh, fresh_k, hit, count-distinct k ks)
      | inr other ↦ ground (arith, fresh, other, count-distinct k ks)
    ]
  ]

  distinct-any : (ks : List K) → Every (λ k. any (same k) ks ≡ true) (distinct same ks)
  unfolding distinct
  distinct-any [] = tt
  distinct-any (x ∷ ks) =
      let later =
        Every-of (λ k (h : any (same k) ks ≡ true). or_true (same k x) h) (distinct same ks)
          (distinct-any ks) in
      elim (Bool-cases (any (same x) ks)) [
        | inl seen ↦ rw seen later
        | inr fresh ↦ rw fresh (rw (same-self x) refl, later)
      ]

  pub group_counts-has :
      (k : K) (ks : List K)
      → any (same k) ks ≡ true
      → count (λ (e : K × ℕ). same k e.0 && e.1 == count (same k) ks) (group_counts same ks) ≡ 1
  unfolding group_counts
  group_counts-has k ks there =
      count-map (λ (e : K × ℕ). same k e.0 && e.1 == count (same k) ks)
        (λ j. (j, count (same j) ks)) (distinct same ks)
      ∙ count-cong
          (λ j. elim (Bool-cases (same k j)) [
            | inl hit ↦
                subst (λ z. (same k z && count (same z) ks == count (same k) ks) ≡ same k z)
                  (same-equal k j hit) (ground (arith, same-self k))
            | inr other ↦ ground arith
          ])
          (distinct same ks)
      ∙ count-distinct k ks
      ∙ rw there refl

  pub group_counts-good :
      (good : K × ℕ → Bool) (ks : List K)
      → ((k : K) → any (same k) ks ≡ true → good (k, count (same k) ks) ≡ true)
      → Every (λ e. good e ≡ true) (group_counts same ks)
  unfolding group_counts
  group_counts-good good ks holds =
      Every-map (λ e. good e ≡ true) (λ k. (k, count (same k) ks)) (distinct same ks)
        (Every-of holds (distinct same ks) (distinct-any ks))

  module _ {order : RowOrder K} (laws : RowOrderLaws order) (limit : ℕ) (ks : List K) where
    -- what each group has, each row of the answer has
    pub rows-good :
        (good : K × ℕ → Bool)
        → ((k : K) → any (same k) ks ≡ true → good (k, count (same k) ks) ≡ true)
        → Every (λ e. good e ≡ true) (take limit (order (group_counts same ks)))
    rows-good good holds =
        Every-take (λ e. good e ≡ true) limit (order (group_counts same ks))
          (Every-count good (order (group_counts same ks)) (
            laws.same_rows (λ e. not (good e)) (group_counts same ks)
            ∙ count-Every good (group_counts same ks) (group_counts-good good ks holds)))

    pub rows-counted :
        Every
          (λ (e : K × ℕ). (1 ≤ e.1) × (e.1 ≡ count (same e.0) ks))
          (take limit (order (group_counts same ks)))
    rows-counted =
        Every-of (λ e h. (ground (arith, h), ground (arith, h)))
          (take limit (order (group_counts same ks)))
          (rows-good (λ e. leb 1 e.1 && e.1 == count (same e.0) ks)
            (λ k there. ground (arith, any-count (same k) ks there)))

    -- a key with rows has one row of the answer, or the answer is full of rows at least as good
    pub rows-top :
        (k : K)
        → any (same k) ks ≡ true
        → (count
              (λ (e : K × ℕ). same k e.0 && e.1 == count (same k) ks)
              (take limit (order (group_counts same ks)))
            ≡ 1)
          ⊎ ((length (take limit (order (group_counts same ks))) ≡ limit)
              × Every
                  (λ (e : K × ℕ). count (same k) ks ≤ e.1)
                  (take limit (order (group_counts same ks))))
    rows-top k there =
        let hit : K × ℕ → Bool = λ e. same k e.0 && e.1 == count (same k) ks in
        let sorted = order (group_counts same ks) in
        let once : count hit sorted ≡ 1 =
          laws.same_rows hit (group_counts same ks) ∙ group_counts-has k ks there in
        let split = count-take-drop hit limit sorted in
        elim (Bool-cases (count hit (take limit sorted) == 1)) [
          | inl listed ↦ inl (ground (arith, listed))
          | inr missing ↦ inr (
              Descending-bound hit (count (same k) ks) limit sorted
                (laws.descending (group_counts same ks)) (λ e held. ground (arith, held))
                (ground (arith, once, split, missing)))
        ]
