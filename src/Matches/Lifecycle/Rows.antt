-- ===== src/Matches/Lifecycle/Rows.antt =====
-- How a write changes the row of one match, of which the tables hold the row of another or itself.
use foosball_api.Prelude.{
  ℕ, ◌≡◌, ◌⊎◌, refl, inl, inr, arith, Option, none, some, List, ◌==◌, Bool-cases,
}
use foosball_api.Matches.Entity.{MatchRow, MatchPlayer}
use foosball_api.Matches.Orm.{Tables, Orm, OrmLaws}
use foosball_api.Matches.Invariant.Defs.{IsConsistent}

-- The row of the match `i` is as it was, or it is the row of `k`, which has become another.
abbrev pub RowMoves : (MatchRow → MatchRow → Type 0) → (k i : ℕ) → Tables → Tables → Type 0
RowMoves P k i d d' =
    (d'.find_row i ≡ d.find_row i)
    ⊎ ((i ≡ k)
        × (r : MatchRow) × (r' : MatchRow) × (d.find_row i ≡ some r)
        × (d'.find_row i ≡ some r')
        × P r r')

pub saved-RowMoves :
    {o : Orm} (laws : OrmLaws o) (P : MatchRow → MatchRow → Type 0) {k : ℕ} (i : ℕ)
    {r r' : MatchRow} (rel : Option (List MatchPlayer)) (d₀ d d' : Tables)
    → d.find_row k ≡ some r
    → r'.id ≡ k
    → P r r'
    → o.save_match r' rel d ≡ some d'
    → d.find_row i ≡ d₀.find_row i
    → RowMoves P k i d₀ d'
saved-RowMoves laws P {k} i {r} {r'} rel d₀ d d' found keyed p saved kept =
    let row = (laws.save_match r' rel d d' saved).row i in
    elim (Bool-cases (i == k)) [
      | inl same ↦
          let e : i ≡ k = ground (arith, same) in
          inr (e, r, r', ground (arith, e, found, kept), ground (arith, row, keyed, same), p)
      | inr other ↦ inl (ground (arith, row, keyed, other, kept))
    ]

pub row_keyed :
    {d : Tables} (k : ℕ) {r : MatchRow} → IsConsistent d → d.find_row k ≡ some r → r.id ≡ k
row_keyed k h found = ground (arith, h k 0)

pub same_row : (P : MatchRow → MatchRow → Type 0) (k i : ℕ) (d : Tables) → RowMoves P k i d d
same_row P k i d = inl refl

-- the row of the match `i` is as it was, or it is the row of `k`, which is gone
abbrev pub RowRemoved : (k i : ℕ) → Tables → Tables → Type 0
RowRemoved k i d d' =
    (d'.find_row i ≡ d.find_row i)
    ⊎ ((i ≡ k) × (r : MatchRow) × (d.find_row i ≡ some r) × (d'.find_row i ≡ none))

pub deleted-RowRemoved :
    {o : Orm} (laws : OrmLaws o) {k : ℕ} (i : ℕ) {r : MatchRow} (d₀ d d' : Tables)
    → d.find_row k ≡ some r
    → o.delete_match k d ≡ some d'
    → d.find_row i ≡ d₀.find_row i
    → RowRemoved k i d₀ d'
deleted-RowRemoved laws {k} i {r} d₀ d d' found gone kept =
    let row = (laws.delete_match k d d' gone).row i in
    elim (Bool-cases (i == k)) [
      | inl same ↦
          let e : i ≡ k = ground (arith, same) in
          inr (e, r, ground (arith, e, found, kept), ground (arith, row, same))
      | inr other ↦ inl (ground (arith, row, other, kept))
    ]
