-- ===== src/Matches/Pagination.antt =====
-- `findPaginated` of repositories/match.repository.ts and `list` of services/match.service.ts. The
-- table is given in the order of the query, newest first; the cursor's base64 and JSON are
-- parameters.
pub mod Pages
pub mod Walk
use foosball_api.Prelude.{
  ℕ, zero, suc, ◌+◌, Bool, true, false, ◌&&◌, ◌||◌, Option, none, some, String, List, [], ◌∷◌, ltb,
  ◌==◌, length, get_or, if◌then◌else◌,
}
use foosball_api.Matches.Entity.{MatchRow, MatchStatus, MatchType, status_text, match_type_text}
use text.Mathlib.Text.{◌==◌ as str_eq}

-- a match with its `createdAt`
pub record ListedMatch : Type 0 where
  pub row : MatchRow
  pub created_at : ℕ

pub record CursorData : Type 0 where
  pub created_at : ℕ
  pub id : ℕ

-- list-matches.dto.ts, after validation
pub record ListMatchesDto : Type 0 where
  pub status : Option MatchStatus
  pub match_type : Option MatchType
  pub created_by : Option ℕ
  pub cursor : Option String
  pub limit : Option ℕ

pub record CursorCodec : Type 0 where
  pub encode : CursorData → String
  -- `none` where the parser throws
  pub decode : String → Option CursorData

pub record PaginatedMatches : Type 0 where
  -- `data`
  pub entries : List ListedMatch
  pub limit : ℕ
  pub has_more : Bool
  pub next_cursor : Option String

module _ {ℓ} {A : Type ℓ} where
  abbrev pub take : ℕ → List A → List A
  take zero xs = []
  take (suc n) [] = []
  take (suc n) (x ∷ xs) = x ∷ take n xs

  abbrev pub drop : ℕ → List A → List A
  drop zero xs = xs
  drop (suc n) [] = []
  drop (suc n) (x ∷ xs) = drop n xs

  abbrev pub filter : (A → Bool) → List A → List A
  filter p [] = []
  filter p (x ∷ xs) = let rest = filter p xs in if p x then x ∷ rest else rest

  abbrev pub last : List A → Option A
  last [] = none
  last (x ∷ []) = some x
  last (x ∷ y ∷ ys) = last (y ∷ ys)

-- the three filters; `if (createdBy)` does not hold for 0
abbrev pub has_status : Option MatchStatus → MatchStatus → Bool
has_status none s = true
has_status (some t) s = str_eq (status_text s) (status_text t)

abbrev pub has_type : Option MatchType → MatchType → Bool
has_type none t = true
has_type (some u) t = str_eq (match_type_text t) (match_type_text u)

abbrev pub same_id : Option ℕ → ℕ → Bool
same_id none u = false
same_id (some c) u = c == u

abbrev pub has_creator : Option ℕ → Option ℕ → Bool
has_creator none by = true
has_creator (some zero) by = true
has_creator (some (suc u)) by = same_id by (suc u)

abbrev pub selected : ListMatchesDto → ListedMatch → Bool
selected dto m =
    has_status dto.status m.row.status
    && has_type dto.match_type m.row.match_type
    && has_creator dto.created_by m.row.created_by

-- `m.created_at < :cursorAt OR (m.created_at = :cursorAt AND m.id < :cursorId)`
abbrev pub is_after : CursorData → ListedMatch → Bool
is_after c m = ltb m.created_at c.created_at || m.created_at == c.created_at && ltb m.row.id c.id

abbrev pub is_after_cursor : Option CursorData → ListedMatch → Bool
is_after_cursor none m = true
is_after_cursor (some c) m = is_after c m

abbrev pub cursor_of : ListedMatch → CursorData
cursor_of m = record { created_at = m.created_at; id = m.row.id }

-- the rows that the query asks for, but for their number
abbrev pub found : ListMatchesDto → Option CursorData → List ListedMatch → List ListedMatch
found dto c = filter (λ m. selected dto m && is_after_cursor c m)

abbrev pub encoded : CursorCodec → Option ListedMatch → Option String
encoded codec none = none
encoded codec (some m) = some (codec.encode (cursor_of m))

-- what is made of the rows of the query, of which there may be one more than the limit
unfoldable pub page_of : CursorCodec → ℕ → List ListedMatch → PaginatedMatches
page_of codec limit rows =
    let has_more = ltb limit (length rows) in
    let entries = if has_more then take limit rows else rows in
    record {
      entries = entries;
      limit = limit;
      has_more = has_more;
      next_cursor = if has_more then encoded codec (last entries) else none;
    }

-- an empty cursor is none; one that does not parse throws
unfoldable pub decoded : CursorCodec → Option String → Option (Option CursorData)
decoded codec none = some none
decoded codec (some text) =
    if str_eq text ""
    then some none
    else elim (codec.decode text) [ none ↦ none | some c ↦ some (some c) ]

-- `findPaginated` at the service's `dto.limit ?? 20`, `none` where it throws
unfoldable pub list_matches :
    CursorCodec → ListMatchesDto → List ListedMatch → Option PaginatedMatches
unfolding page_of decoded
list_matches codec dto table =
    let limit = get_or dto.limit 20 in
    elim (decoded codec dto.cursor) [
      | none ↦ none
      | some c ↦ some (page_of codec limit (take (limit + 1) (found dto c table)))
    ]
