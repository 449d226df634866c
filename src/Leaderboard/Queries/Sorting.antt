-- ===== src/Leaderboard/Queries/Sorting.antt =====
-- An order of rows for the tests: insertion by falling counts, which meets the laws of ORDER BY.
use foosball_api.Prelude.{
  Every-of, Every, ℕ, ◌≤◌, ◌≡◌, ◌∙◌, refl, inl, inr, Bool, List, [], ◌∷◌, ltb, count, if◌then◌else◌,
  arith, Bool-cases,
}
use foosball_api.Leaderboard.Queries.{RowOrder}
use foosball_api.Leaderboard.Queries.Ranking.{RowOrderLaws}
use foosball_api.Leaderboard.Queries.Counting.{Descending}

module _ {K : Type 0} where
  abbrev pub insert : K × ℕ → List (K × ℕ) → List (K × ℕ)
  insert e [] = e ∷ []
  insert e (x ∷ xs) = let rest = insert e xs in if ltb e.1 x.1 then x ∷ rest else e ∷ x ∷ xs

  abbrev pub by_wins : RowOrder K
  by_wins [] = []
  by_wins (e ∷ es) = insert e (by_wins es)

  count-insert :
      (p : K × ℕ → Bool) (e : K × ℕ) (xs : List (K × ℕ)) → count p (insert e xs) ≡ count p (e ∷ xs)
  count-insert p e [] = refl
  count-insert p e (x ∷ xs) = elim (Bool-cases (ltb e.1 x.1)) [
    | inl less ↦ ground (arith, less, count-insert p e xs)
    | inr most ↦ ground (arith, most)
  ]

  count-by_wins : (p : K × ℕ → Bool) (xs : List (K × ℕ)) → count p (by_wins xs) ≡ count p xs
  count-by_wins p [] = refl
  count-by_wins p (x ∷ xs) = count-insert p x (by_wins xs) ∙ ground (arith, count-by_wins p xs)

  Every-insert :
      (m : ℕ) (e : K × ℕ) (xs : List (K × ℕ))
      → e.1 ≤ m
      → Every (λ (y : K × ℕ). y.1 ≤ m) xs
      → Every (λ (y : K × ℕ). y.1 ≤ m) (insert e xs)
  Every-insert m e [] low h = (low, tt)
  Every-insert m e (x ∷ xs) low (h, hs) = elim (Bool-cases (ltb e.1 x.1)) [
    | inl less ↦ rw less (h, Every-insert m e xs low hs)
    | inr most ↦ rw most (low, (h, hs))
  ]

  Descending-insert :
      (e : K × ℕ) (xs : List (K × ℕ))
      → Descending (λ (y : K × ℕ). y.1) xs
      → Descending (λ (y : K × ℕ). y.1) (insert e xs)
  Descending-insert e [] d = (tt, tt)
  Descending-insert e (x ∷ xs) (low, d) = elim (Bool-cases (ltb e.1 x.1)) [
    | inl less ↦
        rw less (Every-insert x.1 e xs (ground (arith, less)) low, Descending-insert e xs d)
    | inr most ↦
        let above : x.1 ≤ e.1 = ground (arith, most) in
        rw most ((above, Every-of (λ y h. omega (arith, h, above)) xs low), (low, d))
  ]

  Descending-by_wins : (xs : List (K × ℕ)) → Descending (λ (y : K × ℕ). y.1) (by_wins xs)
  Descending-by_wins [] = tt
  Descending-by_wins (x ∷ xs) = Descending-insert x (by_wins xs) (Descending-by_wins xs)

  pub by_wins_laws : RowOrderLaws by_wins
  by_wins_laws = record { same_rows = count-by_wins; descending = Descending-by_wins }
