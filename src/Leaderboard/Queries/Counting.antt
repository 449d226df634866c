-- ===== src/Leaderboard/Queries/Counting.antt =====
-- Counting in lists of joined rows, and lists in descending order.
use foosball_api.Prelude.{
  Memᴰ, Every-map, Every, ℕ, zero, suc, ◌+◌, ◌≤◌, ◌≡◌, ◌∙◌, refl, ap, inl, inr, Bool, true, false,
  not, ◌&&◌, List, [], ◌∷◌, map, any, count, length, count-append, if◌then◌else◌, arith, Bool-cases,
}
use foosball_api.Matches.Pagination.{take, drop}
use foosball_api.Leaderboard.Queries.{flat_map}

module _ {A : Type 0} where
  -- each entry has at least the value of every later one
  abbrev pub Descending : (A → ℕ) → List A → Type 0
  Descending f [] = Unit {0}
  Descending f (x ∷ xs) = Every (λ y. f y ≤ f x) xs × Descending f xs

  abbrev pub total : (A → ℕ) → List A → ℕ
  total f [] = 0
  total f (x ∷ xs) = f x + total f xs

module _ {A : Type 0} where
  pub Every-take : (P : A → Type 0) (n : ℕ) (xs : List A) → Every P xs → Every P (take n xs)
  Every-take P zero xs h = tt
  Every-take P (suc n) [] h = tt
  Every-take P (suc n) (x ∷ xs) (h, hs) = (h, Every-take P n xs hs)

  pub Descending-take :
      (f : A → ℕ) (n : ℕ) (xs : List A) → Descending f xs → Descending f (take n xs)
  Descending-take f zero xs h = tt
  Descending-take f (suc n) [] h = tt
  Descending-take f (suc n) (x ∷ xs) (h, hs) =
      (Every-take (λ y. f y ≤ f x) n xs h, Descending-take f n xs hs)

  pub length-take-le : (n : ℕ) (xs : List A) → length (take n xs) ≤ n
  length-take-le zero xs = omega arith
  length-take-le (suc n) [] = omega arith
  length-take-le (suc n) (x ∷ xs) = omega (arith, length-take-le n xs)

  pub count-take-drop :
      (p : A → Bool) (n : ℕ) (xs : List A) → count p xs ≡ count p (take n xs) + count p (drop n xs)
  count-take-drop p zero xs = omega arith
  count-take-drop p (suc n) [] = omega arith
  count-take-drop p (suc n) (x ∷ xs) = ground (arith, count-take-drop p n xs)

  -- what no entry fails, every entry has
  pub Every-count :
      (p : A → Bool) (xs : List A) → count (λ x. not (p x)) xs ≡ 0 → Every (λ x. p x ≡ true) xs
  Every-count p [] h = tt
  Every-count p (x ∷ xs) h = elim (Bool-cases (p x)) [
    | inl good ↦ (good, Every-count p xs (ground arith))
    | inr bad ↦ absurd (ground arith)
  ]

  pub count-Every :
      (p : A → Bool) (xs : List A) → Every (λ x. p x ≡ true) xs → count (λ x. not (p x)) xs ≡ 0
  count-Every p [] h = refl
  count-Every p (x ∷ xs) (h, hs) = ground (arith, h, count-Every p xs hs)

  pub Every-below :
      (f : A → ℕ) (p : A → Bool) (w m : ℕ) (xs : List A)
      → ((x : A) → p x ≡ true → f x ≡ w)
      → Every (λ y. f y ≤ m) xs
      → 1 ≤ count p xs
      → w ≤ m
  Every-below f p w m [] value below hit = absurd (omega (arith, hit))
  Every-below f p w m (x ∷ xs) value (low, below) hit = elim (Bool-cases (p x)) [
    | inl held ↦ omega (arith, value x held, low)
    | inr fails ↦ Every-below f p w m xs value below (ground (arith, fails, hit))
  ]

  -- in descending order, an entry among the later ones bounds the earlier ones from below
  pub Descending-bound :
      {f : A → ℕ} (p : A → Bool) (w n : ℕ) (xs : List A)
      → Descending f xs
      → ((x : A) → p x ≡ true → f x ≡ w)
      → 1 ≤ count p (drop n xs)
      → (length (take n xs) ≡ n) × Every (λ x. w ≤ f x) (take n xs)
  Descending-bound p w zero xs d value later = (refl, tt)
  Descending-bound p w (suc n) [] d value later = absurd (omega (arith, later))
  Descending-bound {f} p w (suc n) (x ∷ xs) (low, d) value later =
      let (full, above) = Descending-bound p w n xs d value later in
      let hit : 1 ≤ count p xs = omega (arith, count-take-drop p n xs, later) in
      (ap suc full, (Every-below f p w (f x) xs value low hit, above))

  pub total-cong : {f g : A → ℕ} → ((x : A) → f x ≡ g x) → (xs : List A) → total f xs ≡ total g xs
  total-cong same [] = refl
  total-cong same (x ∷ xs) = omega (arith, same x, total-cong same xs)

  pub total-test : (p : A → Bool) (xs : List A) → total (λ x. if p x then 1 else 0) xs ≡ count p xs
  total-test p [] = refl
  total-test p (x ∷ xs) = ground (arith, total-test p xs)

  pub count-cong :
      {p q : A → Bool} → ((x : A) → p x ≡ q x) → (xs : List A) → count p xs ≡ count q xs
  count-cong same [] = refl
  count-cong same (x ∷ xs) = ground (arith, same x, count-cong same xs)

  pub count-le :
      {p q : A → Bool}
      → ((x : A) → p x ≡ true → q x ≡ true)
      → (xs : List A) → count p xs ≤ count q xs
  count-le implies [] = omega arith
  count-le {p} implies (x ∷ xs) = elim (Bool-cases (p x)) [
    | inl held ↦ ground (arith, held, implies x held, count-le implies xs)
    | inr fails ↦ ground (arith, fails, count-le implies xs)
  ]

  pub count-any :
      (p : A → Bool) (xs : List A) → count p xs ≤ 1 → count p xs ≡ (if any p xs then 1 else 0)
  count-any p [] h = refl
  count-any p (x ∷ xs) h = elim (Bool-cases (p x)) [
    | inl held ↦ ground (arith, held, count-any p xs)
    | inr fails ↦ ground (arith, fails, count-any p xs)
  ]

module _ {A B : Type 0} where
  pub count-flat_map :
      (p : B → Bool) (f : A → List B) (xs : List A)
      → count p (flat_map f xs) ≡ total (λ x. count p (f x)) xs
  count-flat_map p f [] = refl
  count-flat_map p f (x ∷ xs) =
      omega (arith, count-append p (f x) (flat_map f xs), count-flat_map p f xs)

  pub Descending-map :
      (h : B → ℕ) (f : A → B) (xs : List A) → Descending (λ x. h (f x)) xs → Descending h (map f xs)
  Descending-map h f [] d = tt
  Descending-map h f (x ∷ xs) (low, d) =
      (Every-map (λ y. h y ≤ h (f x)) f xs low, Descending-map h f xs d)

  pub count-map :
      (p : B → Bool) (f : A → B) (xs : List A) → count p (map f xs) ≡ count (λ x. p (f x)) xs
  count-map p f [] = refl
  count-map p f (x ∷ xs) = ground (arith, count-map p f xs)

  pub length-map : (f : A → B) (xs : List A) → length (map f xs) ≡ length xs
  length-map f [] = refl
  length-map f (x ∷ xs) = ap suc (length-map f xs)

module _ {A : Type 0} (p : A → Bool) where
  pub any-count : (xs : List A) → any p xs ≡ true → 1 ≤ count p xs
  any-count [] h = absurd (ground (arith, h))
  any-count (x ∷ xs) h = elim (Bool-cases (p x)) [
    | inl held ↦ ground (arith, held)
    | inr fails ↦ ground (arith, fails, any-count xs (ground (arith, fails, h)))
  ]

  pub count-has : (xs : List A) → 1 ≤ count p xs → any p xs ≡ true
  count-has [] h = absurd (omega (arith, h))
  count-has (x ∷ xs) h = elim (Bool-cases (p x)) [
    | inl held ↦ ground (arith, held)
    | inr fails ↦ ground (arith, fails, count-has xs (ground (arith, fails, h)))
  ]

module _ {A : Type 0} where
  pub count-none : (p : A → Bool) → ((x : A) → p x ≡ false) → (xs : List A) → count p xs ≡ 0
  count-none p fails [] = refl
  count-none p fails (x ∷ xs) = ground (arith, fails x, count-none p fails xs)

  pub any-none : (p : A → Bool) → ((x : A) → p x ≡ false) → (xs : List A) → any p xs ≡ false
  any-none p fails [] = refl
  any-none p fails (x ∷ xs) = ground (arith, fails x, any-none p fails xs)

module _ {A : Type 0} where
  pub total-zero : (xs : List A) → total (λ (_ : A). 0) xs ≡ 0
  total-zero [] = refl
  total-zero (x ∷ xs) = omega (arith, total-zero xs)

  -- a test that at most one entry passes, under a condition
  pub total-once :
      (r : Bool) (p : A → Bool) (xs : List A)
      → count p xs ≤ 1
      → total (λ x. if r && p x then 1 else 0) xs ≡ (if r && any p xs then 1 else 0)
  total-once true p xs once = total-test p xs ∙ count-any p xs once
  total-once false p xs once = total-zero xs

module _ {A : Type 0} (p : A → Bool) {x : A} (held : p x ≡ true) where
  pub any-Mem : (xs : List A) → Memᴰ x xs → any p xs ≡ true
  any-Mem [] m = elim m [ ]
  any-Mem (y ∷ ys) (Memᴰ.head e) = ground (arith, ap p e, held)
  any-Mem (y ∷ ys) (Memᴰ.tail m) = ground (arith, any-Mem ys m)
