-- ===== src/Matches/Tests/Listing.antt =====
-- The theorem on pages at a list of two matches.
use text.Mathlib.Text.{◌==◌ as str_eq}
use foosball_api.Prelude.{ℕ, ◌≡◌, refl, none, some, List, [], ◌∷◌, arith, ◌==◌, if◌then◌else◌}
use foosball_api.Matches.Entity.{one_v_one, draft}
use foosball_api.Matches.Pagination.{ListedMatch, ListMatchesDto, CursorCodec, cursor_of}
use foosball_api.Matches.Pagination.Walk.{walk, walk_lists_all}

abbrev listed : ℕ → ℕ → ListedMatch
listed id created_at = record {
  row = record {
    id = id;
    created_by = some 1;
    match_type = one_v_one;
    status = draft;
    score_a = none;
    score_b = none;
    confirmed_at = none;
    locked_at = none;
  };
  created_at = created_at;
}

abbrev table : List ListedMatch
table = listed 2 30 ∷ listed 1 20 ∷ []

abbrev one_each : ListMatchesDto
one_each = record {
  status = none;
  match_type = none;
  created_by = none;
  cursor = none;
  limit = some 1;
}

-- two texts, for the cursors of the two matches
abbrev two_texts : CursorCodec
two_texts = record {
  encode = λ c. if c.id == 2 then "b" else "a";
  decode = λ text. some (cursor_of (if str_eq text "b" then listed 2 30 else listed 1 20));
}

walk_lists_all_example : walk two_texts 3 one_each table ≡ some table
walk_lists_all_example =
    walk_lists_all two_texts table 3 one_each 0 ((refl, refl), ((refl, refl), tt))
      ((refl, tt), (tt, tt)) refl refl (omega arith)
