-- ===== src/Matches/Pagination/Walk.antt =====
-- A client that asks for page after page, each at the cursor of the one before.
use text.Mathlib.Text.{◌==◌ as str_eq}
use foosball_api.Prelude.{
  Every, ℕ, zero, suc, ◌+◌, ◌-◌, ◌≤◌, ◌≡◌, ◌∙◌, ap, refl, Bool, false, ◌&&◌, ◌<◌, Option, none,
  some, String, List, [], ◌∷◌, ◌++◌, ltb, length, inl, inr, arith, Bool-cases, get_or,
  if◌then◌else◌,
}
use foosball_api.Matches.Pagination.{
  ListedMatch, CursorData, ListMatchesDto, CursorCodec, PaginatedMatches, take, drop, filter, last,
  selected, is_after_cursor, cursor_of, found, encoded, page_of, decoded, list_matches,
}
use foosball_api.Matches.Pagination.Pages.{
  Sorted, found-next, page_of-entries, list_matches-at, decoded-encode,
}

abbrev pub with_rest : List ListedMatch → Option (List ListedMatch) → Option (List ListedMatch)
with_rest entries none = none
with_rest entries (some rest) = some (entries ++ rest)

-- the entries of a page, and what the client gets at its cursor
abbrev pub and_rest :
    (String → Option (List ListedMatch))
    → List ListedMatch
    → Option String
    → Option (List ListedMatch)
and_rest rest entries none = some entries
and_rest rest entries (some text) = with_rest entries (rest text)

abbrev pub follow :
    (String → Option (List ListedMatch)) → Option PaginatedMatches → Option (List ListedMatch)
follow rest none = none
follow rest (some page) = and_rest rest page.entries page.next_cursor

-- the client that asks for `n` pages at most, and gives up (`none`) after them or on an error
unfoldable pub walk :
    CursorCodec → ℕ → ListMatchesDto → List ListedMatch → Option (List ListedMatch)
walk codec zero dto table = none
walk codec (suc n) dto table =
    follow (λ text. walk codec n (record dto { cursor = some text }) table)
      (list_matches codec dto table)

-- the cursor of a match reads back as it was written, and is not the empty text
abbrev pub Reads : CursorCodec → ListedMatch → Type 0
Reads codec x =
    (codec.decode (codec.encode (cursor_of x)) ≡ some (cursor_of x))
    × (str_eq (codec.encode (cursor_of x)) "" ≡ false)

Every-filter :
    (P : ListedMatch → Type 0) (p : ListedMatch → Bool) (xs : List ListedMatch)
    → Every P xs
    → Every P (filter p xs)
Every-filter P p [] h = tt
Every-filter P p (x ∷ xs) (h, hs) = elim (Bool-cases (p x)) [
  | inl kept ↦ rw (kept, filter) (h, Every-filter P p xs hs)
  | inr dropped ↦ rw (dropped, filter) (Every-filter P p xs hs)
]

filter-cong :
    {p q : ListedMatch → Bool}
    → ((m : ListedMatch) → p m ≡ q m)
    → (xs : List ListedMatch) → filter p xs ≡ filter q xs
filter-cong same [] = refl
filter-cong same (x ∷ xs) = ground (arith, same x, filter-cong same xs)

-- a list that is not empty has a last entry within its first ones, which has what all have
last-take :
    (P : ListedMatch → Type 0) (k : ℕ) (xs : List ListedMatch)
    → 1 ≤ length xs
    → Every P xs
    → (x : ListedMatch) × (last (take (suc k) xs) ≡ some x) × P x
last-take P k [] h all = absurd (omega (arith, h))
last-take P zero (x ∷ xs) h (p, all) = (x, refl, p)
last-take P (suc k) (x ∷ []) h (p, all) = (x, refl, p)
last-take P (suc k) (x ∷ y ∷ ys) h (p, all) = last-take P k (y ∷ ys) (omega arith) all

take-drop : (k : ℕ) (xs : List ListedMatch) → take k xs ++ drop k xs ≡ xs
take-drop zero xs = refl
take-drop (suc k) [] = refl
take-drop (suc k) (x ∷ xs) = ap (λ r. x ∷ r) (take-drop k xs)

take-all : (k : ℕ) (xs : List ListedMatch) → length xs ≤ k → take k xs ≡ xs
take-all zero [] h = refl
take-all zero (x ∷ xs) h = absurd (omega (arith, h))
take-all (suc k) [] h = refl
take-all (suc k) (x ∷ xs) h = ap (λ r. x ∷ r) (take-all k xs (omega (arith, h)))

length-drop : (k : ℕ) (xs : List ListedMatch) → length (drop k xs) ≡ length xs - k
length-drop zero xs = omega arith
length-drop (suc k) [] = omega arith
length-drop (suc k) (x ∷ xs) = omega (arith, length-drop k xs)

module _ (codec : CursorCodec) (table : List ListedMatch) where
  walk-step :
      (n : ℕ) (dto : ListMatchesDto) (c : Option CursorData) (k : ℕ)
      → get_or dto.limit 20 ≡ suc k
      → decoded codec dto.cursor ≡ some c
      → walk codec (suc n) dto table
        ≡ and_rest
            (λ text. walk codec n (record dto { cursor = some text }) table)
            (take (suc k) (found dto c table))
            (if ltb (suc k) (length (found dto c table))
              then encoded codec (last (take (suc k) (found dto c table)))
              else none)
  unfolding walk
  walk-step n dto c k limited at_cursor =
      let (entries, more, next) = page_of-entries codec (suc k) (found dto c table) in
      let rest : String → Option (List ListedMatch) =
        λ text. walk codec n (record dto { cursor = some text }) table in
      ap (follow rest) (list_matches-at codec dto c (suc k) table limited at_cursor)
      ∙ ap
          (λ e.
            and_rest rest e
              (page_of codec (suc k) (take (suc k + 1) (found dto c table))).next_cursor)
          entries
      ∙ ap (and_rest rest (take (suc k) (found dto c table))) next

  walk-all :
      (n : ℕ) (dto : ListMatchesDto) (c : Option CursorData) (k : ℕ)
      → Every (Reads codec) table
      → Sorted table
      → get_or dto.limit 20 ≡ suc k
      → decoded codec dto.cursor ≡ some c
      → length (found dto c table) < n
      → walk codec n dto table ≡ some (found dto c table)
  walk-all zero dto c k reads sorted limited at_cursor enough = absurd (omega (arith, enough))
  walk-all (suc n) dto c k reads sorted limited at_cursor enough =
      let f = found dto c table in
      elim (Bool-cases (ltb (suc k) (length f))) [
        | inr all ↦
            walk-step n dto c k limited at_cursor
            ∙ rw all (ap some (take-all (suc k) f (ground (arith, all))))
        | inl more ↦
            let (x, at_end, (round, nonempty)) =
              last-take (Reads codec) k f (ground (arith, more)) (
                Every-filter (Reads codec) (λ m. selected dto m && is_after_cursor c m) table
                  reads) in
            let next = found-next dto c k x table sorted at_end in
            let longer : suc k < length f = ground (arith, more) in
            walk-step n dto c k limited at_cursor
            ∙ rw (more, at_end)
                (ap (with_rest (take (suc k) f)) (
                    walk-all n (record dto { cursor = some (codec.encode (cursor_of x)) })
                      (some (cursor_of x)) k reads sorted limited
                      (decoded-encode codec (cursor_of x) round nonempty)
                      (omega (arith, ap length next, length-drop (suc k) f, enough, longer))
                    ∙ ap some next)
                  ∙ ap some (take-drop (suc k) f))
      ]

-- Where the table is sorted, newest first, and every match's cursor reads back as it was written
-- and is not the empty text: a client that starts without a cursor, at a limit that is not 0, and
-- follows the cursors needs at most one page more than there are matches of its filters, and then
-- it has got all of these, each once, in the table's order.
pub walk_lists_all :
    (codec : CursorCodec) (table : List ListedMatch) (n : ℕ) (dto : ListMatchesDto) (k : ℕ)
    → Every (Reads codec) table
    → Sorted table
    → dto.cursor ≡ none
    → get_or dto.limit 20 ≡ suc k
    → length (filter (selected dto) table) < n
    → walk codec n dto table ≡ some (filter (selected dto) table)
unfolding decoded
walk_lists_all codec table n dto k reads sorted first limited enough =
    let same : found dto none table ≡ filter (selected dto) table =
      filter-cong (λ m. ground arith) table in
    walk-all codec table n dto none k reads sorted limited (ap (decoded codec) first ∙ refl)
      (omega (arith, ap length same, enough))
    ∙ ap some same
