-- ===== src/Matches/Pagination/Pages.antt =====
-- Following the cursors walks through the whole list.
use mathlib.Core.Path.{subst}
use text.Mathlib.Text.{◌==◌ as str_eq}
use foosball_api.Prelude.{
  some_eq, ℕ, zero, suc, ◌+◌, ◌≤◌, ◌≡◌, ◌∙◌, sym, ap, refl, Bool, true, false, ◌&&◌, Option, none,
  some, String, List, [], ◌∷◌, ltb, length, inl, inr, arith, Bool-cases, get_or, if◌then◌else◌,
}
use foosball_api.Matches.Pagination.{
  ListedMatch, CursorData, ListMatchesDto, CursorCodec, PaginatedMatches, take, drop, filter, last,
  selected, is_after, is_after_cursor, cursor_of, found, encoded, page_of, decoded, list_matches,
}

abbrev pub All : (ListedMatch → Bool) → List ListedMatch → Type 0
All p [] = Unit {0}
All p (x ∷ xs) = (p x ≡ true) × All p xs

-- every match of the list comes after the first one
abbrev pub AllAfter : ListedMatch → List ListedMatch → Type 0
AllAfter x = All (is_after (cursor_of x))

-- newest first, and by descending id where the times are equal
abbrev pub Sorted : List ListedMatch → Type 0
Sorted [] = Unit {0}
Sorted (x ∷ xs) = AllAfter x xs × Sorted xs

All-filter : (p q : ListedMatch → Bool) (xs : List ListedMatch) → All q xs → All q (filter p xs)
All-filter p q [] h = tt
All-filter p q (y ∷ ys) (holds, h) = elim (Bool-cases (p y)) [
  | inl kept ↦ rw (kept, filter) (holds, All-filter p q ys h)
  | inr dropped ↦ rw (dropped, filter) (All-filter p q ys h)
]

filter-All : (p : ListedMatch → Bool) (xs : List ListedMatch) → All p (filter p xs)
filter-All p [] = tt
filter-All p (y ∷ ys) = elim (Bool-cases (p y)) [
  | inl kept ↦ rw (kept, filter) (kept, filter-All p ys)
  | inr dropped ↦ rw (dropped, filter) (filter-All p ys)
]

Sorted-filter : (p : ListedMatch → Bool) (xs : List ListedMatch) → Sorted xs → Sorted (filter p xs)
Sorted-filter p [] h = tt
Sorted-filter p (x ∷ xs) (after, h) = elim (Bool-cases (p x)) [
  | inl yes_p ↦
      rw (yes_p, filter) (All-filter p (is_after (cursor_of x)) xs after, Sorted-filter p xs h)
  | inr no_p ↦ rw (no_p, filter) (Sorted-filter p xs h)
]

filter-AllAfter :
    (x : ListedMatch) (xs : List ListedMatch)
    → AllAfter x xs
    → filter (is_after (cursor_of x)) xs ≡ xs
filter-AllAfter x [] h = refl
filter-AllAfter x (y ∷ ys) (after, h) =
    rw (after, filter) (ap (λ r. y ∷ r) (filter-AllAfter x ys h))

last-All :
    (p : ListedMatch → Bool) (x : ListedMatch) (k : ℕ) (ys : List ListedMatch)
    → All p ys
    → last (take (suc k) ys) ≡ some x
    → p x ≡ true
last-All p x k [] h e = cc
last-All p x zero (z ∷ zs) (holds, h) e = let same : z ≡ x = cc in rw (← same) holds
last-All p x (suc k) (z ∷ []) (holds, h) e = let same : z ≡ x = cc in rw (← same) holds
last-All p x (suc k) (z ∷ u ∷ us) (holds, h) e = last-All p x k (u ∷ us) h e

filter-head :
    (x y : ListedMatch) (ys : List ListedMatch)
    → AllAfter y ys
    → some y ≡ some x
    → filter (is_after (cursor_of x)) (y ∷ ys) ≡ ys
filter-head x y ys after e =
    let same : y ≡ x = cc in
    let not_before : is_after (cursor_of y) y ≡ false = ground arith in
    subst (λ z. filter (is_after (cursor_of z)) (y ∷ ys) ≡ ys) same
      (rw (not_before, filter) (filter-AllAfter y ys after))

-- what comes after the last match of a page is what the page has left
filter-last :
    (x : ListedMatch) (k : ℕ) (xs : List ListedMatch)
    → Sorted xs
    → last (take (suc k) xs) ≡ some x
    → filter (is_after (cursor_of x)) xs ≡ drop (suc k) xs
filter-last x k [] h e = cc
filter-last x zero (y ∷ ys) (after, h) e = filter-head x y ys after e
filter-last x (suc k) (y ∷ []) (after, h) e = filter-head x y [] after e
filter-last x (suc k) (y ∷ z ∷ zs) (after, h) e =
    let later = last-All (is_after (cursor_of y)) x k (z ∷ zs) after e in
    let not_before : is_after (cursor_of x) y ≡ false = ground (arith, later) in
    rw (not_before, filter) (filter-last x k (z ∷ zs) h e)

filter-filter :
    (p q r : ListedMatch → Bool) (xs : List ListedMatch)
    → ((y : ListedMatch) → r y ≡ p y && q y)
    → filter r xs ≡ filter q (filter p xs)
filter-filter p q r [] h = refl
filter-filter p q r (x ∷ xs) h = ground (arith, h x, filter-filter p q r xs h)

-- the cursor of a match that was found asks for the found matches after it
after_both :
    (c : Option CursorData) (x y : ListedMatch)
    → is_after_cursor c x ≡ true
    → is_after (cursor_of x) y ≡ (is_after_cursor c y && is_after (cursor_of x) y)
after_both none x y h = refl
after_both (some c) x y h = ground arith

pub found-next :
    (dto : ListMatchesDto) (c : Option CursorData) (k : ℕ) (x : ListedMatch)
    (table : List ListedMatch)
    → Sorted table
    → last (take (suc k) (found dto c table)) ≡ some x
    → found dto (some (cursor_of x)) table ≡ drop (suc k) (found dto c table)
found-next dto c k x table sorted e =
    let p = λ (m : ListedMatch). selected dto m && is_after_cursor c m in
    let own : p x ≡ true = last-All p x k (filter p table) (filter-All p table) e in
    filter-filter p (is_after (cursor_of x)) (λ m. selected dto m && is_after (cursor_of x) m) table
      (λ y. ground (arith, after_both c x y))
    ∙ filter-last x k (filter p table) (Sorted-filter p table sorted) e

take-take : {A : Type 0} (k : ℕ) (xs : List A) → take k (take (suc k) xs) ≡ take k xs
take-take zero xs = refl
take-take (suc k) [] = refl
take-take (suc k) (x ∷ xs) = ap (λ r. x ∷ r) (take-take k xs)

length-take_one_more :
    {A : Type 0} (k : ℕ) (xs : List A) → ltb k (length (take (suc k) xs)) ≡ ltb k (length xs)
length-take_one_more zero [] = refl
length-take_one_more zero (x ∷ xs) = ground arith
length-take_one_more (suc k) [] = refl
length-take_one_more (suc k) (x ∷ xs) = ground (arith, length-take_one_more k xs)

take-short : {A : Type 0} (k : ℕ) (xs : List A) → length xs ≤ k → take (suc k) xs ≡ take k xs
take-short zero [] h = refl
take-short zero (x ∷ xs) h = absurd (omega arith)
take-short (suc k) [] h = refl
take-short (suc k) (x ∷ xs) h = ap (λ r. x ∷ r) (take-short k xs (omega arith))

pub page_of-entries :
    (codec : CursorCodec) (k : ℕ) (f : List ListedMatch)
    → let page = page_of codec k (take (k + 1) f) in
      (page.entries ≡ take k f)
      × (page.has_more ≡ ltb k (length f))
      × (page.next_cursor ≡ (if ltb k (length f) then encoded codec (last (take k f)) else none))
unfolding page_of
page_of-entries codec k f =
    let one_more : k + 1 ≡ suc k = omega arith in
    rw one_more (
      rw (length-take_one_more k f) (elim (Bool-cases (ltb k (length f))) [
        | inl more ↦ rw (more, take-take k f) (refl, refl, refl)
        | inr all ↦ rw all (rw (take-short k f (ground arith)) (refl, refl, refl))
      ]))

pub list_matches-at :
    (codec : CursorCodec) (dto : ListMatchesDto) (c : Option CursorData) (k : ℕ)
    (table : List ListedMatch)
    → get_or dto.limit 20 ≡ k
    → decoded codec dto.cursor ≡ some c
    → list_matches codec dto table ≡ some (page_of codec k (take (k + 1) (found dto c table)))
unfolding list_matches
list_matches-at codec dto c k table limited at_cursor =
    rw (at_cursor, list_matches) (rw limited refl)

pub decoded-encode :
    (codec : CursorCodec) (x : CursorData)
    → codec.decode (codec.encode x) ≡ some x
    → str_eq (codec.encode x) "" ≡ false
    → decoded codec (some (codec.encode x)) ≡ some (some x)
unfolding decoded
decoded-encode codec x round nonempty = rw (nonempty, decoded) (rw round refl)

-- the match whose cursor a page gives
cursor-last :
    (codec : CursorCodec) (more : Bool) (m : Option ListedMatch) {text : String}
    → (if more then encoded codec m else none) ≡ some text
    → (x : ListedMatch) × (m ≡ some x) × (codec.encode (cursor_of x) ≡ text)
cursor-last codec true none e = cc
cursor-last codec true (some x) e = (x, refl, some_eq e)
cursor-last codec false m e = cc

-- Where the table is sorted, newest first, and the text of the page's cursor is not empty and
-- reads back as it was written: a page at a limit that is not 0 holds the first `limit` of the
-- found matches and tells whether there are more; and if it gives a cursor, the list at that
-- cursor is the page of the found matches that are left, so that nothing is listed twice or left
-- out.
next_page_continues :
    (codec : CursorCodec) (dto : ListMatchesDto) (c : Option CursorData) (k : ℕ)
    (table : List ListedMatch) {page : PaginatedMatches}
    → ((x : ListedMatch)
        → last (take (suc k) (found dto c table)) ≡ some x
        → (codec.decode (codec.encode (cursor_of x)) ≡ some (cursor_of x))
          × (str_eq (codec.encode (cursor_of x)) "" ≡ false))
    → Sorted table
    → get_or dto.limit 20 ≡ suc k
    → decoded codec dto.cursor ≡ some c
    → list_matches codec dto table ≡ some page
    → let left = drop (suc k) (found dto c table) in
      (page.entries ≡ take (suc k) (found dto c table))
      × (page.has_more ≡ ltb (suc k) (length (found dto c table)))
      × ((text : String)
          → page.next_cursor ≡ some text
          → list_matches codec (record dto { cursor = some text }) table
            ≡ some (page_of codec (suc k) (take (suc k + 1) left)))
next_page_continues codec dto c k table {page} reads sorted limited at_cursor listed =
    let f = found dto c table in
    let same : page_of codec (suc k) (take (suc k + 1) f) ≡ page =
      some_eq (sym (list_matches-at codec dto c (suc k) table limited at_cursor) ∙ listed) in
    let (entries, more, next) = page_of-entries codec (suc k) f in
    (
      ap (λ (x : PaginatedMatches). x.entries) (sym same) ∙ entries,
      ap (λ (x : PaginatedMatches). x.has_more) (sym same) ∙ more,
      λ text given.
          let shown = sym next ∙ ap (λ (x : PaginatedMatches). x.next_cursor) same ∙ given in
          let (x, at_end, encodes) =
            cursor-last codec (ltb (suc k) (length f)) (last (take (suc k) f)) shown in
          let (round, nonempty) = reads x at_end in
          let read = decoded-encode codec (cursor_of x) round nonempty in
          subst
            (λ t.
              list_matches codec (record dto { cursor = some t }) table
              ≡ some (page_of codec (suc k) (take (suc k + 1) (drop (suc k) f))))
            encodes
            (list_matches-at codec (record dto { cursor = some (codec.encode (cursor_of x)) })
                (some (cursor_of x)) (suc k) table limited read
              ∙ ap (λ g. some (page_of codec (suc k) (take (suc k + 1) g)))
                  (found-next dto c k x table sorted at_end)),
    )
