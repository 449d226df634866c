-- ===== src/Action.antt =====
-- Async methods: an action reads and changes a state and returns or throws. What was written
-- before a throw stays written.
use foosball_api.Prelude.{◌≡◌, ap, refl, ◌⊎◌, inl, inr, Bool, true, false, Option, none, some}
use foosball_api.Http.{Exception, Result, ok, err}

abbrev pub Action : Type 0 → Type 0 → Type 0
Action S A = S → Result A × S

module _ {S A : Type 0} where
  abbrev pub pure : A → Action S A
  pure x s = (ok x, s)

  abbrev pub throw : Exception → Action S A
  throw e s = (err e, s)

  abbrev pub gets : (S → A) → Action S A
  gets f s = (ok (f s), s)

  -- `if (!x) throw e`
  abbrev pub or_throw : Option A → Exception → Action S A
  or_throw none e s = (err e, s)
  or_throw (some x) e s = (ok x, s)

infixl 5 ◌>>=◌ ◌>>◌
abbrev pub ◌>>=◌ : {S A B : Type 0} → Action S A → (A → Action S B) → Action S B
◌>>=◌ m f s = let (r, s') = m s in elim r [ ok x ↦ f x s' | err e ↦ (err e, s') ]

abbrev pub ◌>>◌ : {S B : Type 0} → Action S (Unit {0}) → Action S B → Action S B
m >> k = m >>= λ _. k

-- `if (test) throw e`
abbrev pub throw_if : {S : Type 0} → Bool → Exception → Action S (Unit {0})
throw_if true e s = (err e, s)
throw_if false e s = (ok tt, s)

-- `if (test) await action`
abbrev pub when : {S : Type 0} → Bool → Action S (Unit {0}) → Action S (Unit {0})
when true m s = m s
when false m s = (ok tt, s)

module _ {S A B : Type 0} (m : Action S A) (f : A → Action S B) (s : S) {s' : S} where
  pub bind-ok : {x : A} → m s ≡ (ok x, s') → (m >>= f) s ≡ f x s'
  bind-ok e = ap (λ y. ((λ (_ : S). y) >>= f) s) e

  pub bind-err : {e : Exception} → m s ≡ (err e, s') → (m >>= f) s ≡ (err e, s')
  bind-err e = ap (λ y. ((λ (_ : S). y) >>= f) s) e

-- how an action ended
pub Outcome-cases :
    {S A : Type 0} (r : Result A × S)
    → ((x : A) × (s : S) × (r ≡ (ok x, s))) ⊎ ((e : Exception) × (s : S) × (r ≡ (err e, s)))
Outcome-cases (ok x, s) = inl (x, s, refl)
Outcome-cases (err e, s) = inr (e, s, refl)

pub Result-cases :
    {A : Type 0} (r : Result A) → ((x : A) × (r ≡ ok x)) ⊎ ((e : Exception) × (r ≡ err e))
Result-cases (ok x) = inl (x, refl)
Result-cases (err e) = inr (e, refl)

-- what holds of the state after the first action, and after the second whatever the first gave,
-- holds after both
pub bind-keeps :
    {S A B : Type 0} (P : S → Type 0) (m : Action S A) (f : A → Action S B) (s : S)
    → P (m s).1
    → ((x : A) (s' : S) → P s' → P (f x s').1)
    → P ((m >>= f) s).1
bind-keeps P m f s first next = elim (Outcome-cases (m s)) [
  | inl (x, s', e) ↦ rw (bind-ok m f s e) (next x s' (rw e at first))
  | inr (x, s', e) ↦ rw (bind-err m f s e) (rw e at first)
]

pub throw_if-keeps :
    {S : Type 0} (P : S → Type 0) (test : Bool) (e : Exception) (s : S)
    → P s
    → P (throw_if test e s).1
throw_if-keeps P true e s h = h
throw_if-keeps P false e s h = h
