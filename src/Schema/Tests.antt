-- ===== src/Schema/Tests.antt =====
-- The theorems on the tables at concrete rows, and the order of the migrations.
use Prim.Native.Char.{Char, code}
use Prim.Native.String.{[], ◌∷◌, ◌++◌}
use foosball_api.Prelude.{
  ℕ, suc, ◌+◌, ◌*◌, ◌≤◌, ◌≡◌, refl, Bool, true, false, not, ◌&&◌, ◌||◌, ◌==◌, some, String, List,
  [], ◌∷◌, Bool-cases, inl, inr, arith, if◌then◌else◌,
}
use foosball_api.Matches.Entity.{team_b}
use foosball_api.Matches.Dto.{
  PlayerDto, AdminOverrideResultDto, submit_valid, add_players_valid, player_valid, max_length,
  position_valid, reason_valid,
}
use foosball_api.Matches.MatchService
use foosball_api.Matches.MatchService.{to_player}
use foosball_api.Matches.AdminOverride.{override_log, delete_log}
use foosball_api.Matches.Confirmation.{
  pre_check, confirm, locked_vote, cast_vote, publish_confirmed,
}
use foosball_api.Matches.Requests.{handle, serve}
use foosball_api.Matches.Invariant.Cancel.{loaded}
use foosball_api.Matches.Tests.Memory.{reliable_laws}
use foosball_api.Matches.Tests.Story.{start, story, confirmed_row, confirmed_world}
use foosball_api.Matches.Tests.Lifecycle.{start-IsConsistent}
use foosball_api.Schema.{
  ForeignKey, create_table_if_not_exists, drop_table_if_exists, Migration, member, row_fits,
}
use foosball_api.Schema.Texts.{characters}
use foosball_api.Schema.Migrations.{
  matches_table, match_players_table, audit_logs_table, migrations,
}
use foosball_api.Schema.Values.{match_values, player_values, audit_values}
use foosball_api.Schema.Stored.{stored_match_fits, accepted_rows_fit}

stored_match_fits_example : row_fits matches_table (match_values confirmed_row) ≡ true
unfolding serve handle confirm pre_check submit_valid MatchService.submit_result add_players_valid
    MatchService.add_players MatchService.create locked_vote cast_vote publish_confirmed
stored_match_fits_example =
    stored_match_fits reliable_laws story start 1 start-IsConsistent refl refl refl

-- U+FE0E and U+FE0F
abbrev selects : Char → Bool
selects c = code c == 65038 || code c == 65039

-- A count of characters in which a selector after another character is left out, for the witness.
abbrev seen_after : Bool → String → ℕ
seen_after free [] = 0
seen_after free (c ∷ s) =
    if free && selects c then seen_after false s else suc (seen_after (not (selects c)) s)

abbrev opened : Bool → ℕ
opened true = 1
opened false = 0

-- after a character that a selector may follow, one more character may go uncounted
characters-le-seen_after :
    (free : Bool) (s : String) → characters s ≤ opened free + 2 * seen_after free s
unfolding characters
characters-le-seen_after free [] = omega arith
characters-le-seen_after false (c ∷ s) = elim (Bool-cases (selects c)) [
  | inl selector ↦ rw selector (omega (arith, characters-le-seen_after false s))
  | inr other ↦ rw other (omega (arith, characters-le-seen_after true s))
]
characters-le-seen_after true (c ∷ s) = elim (Bool-cases (selects c)) [
  | inl selector ↦ rw selector (omega (arith, characters-le-seen_after false s))
  | inr other ↦ rw other (omega (arith, characters-le-seen_after true s))
]

abbrev seen : String → ℕ
seen s = seen_after false s

characters-le-seen : (s : String) → characters s ≤ 2 * seen s
characters-le-seen s = omega (arith, characters-le-seen_after false s)

-- 33 hearts, each with the selector of its colour
abbrev three : String
three = "❤\u{fe0f}❤\u{fe0f}❤\u{fe0f}"

abbrev hearts : String
hearts =
    three ++ three ++ three ++ three ++ three ++ three ++ three ++ three ++ three ++ three ++ three

abbrev keeper : PlayerDto
keeper = record { user_id = 2; team = team_b; slot = 1; position = some hearts }

abbrev noted : AdminOverrideResultDto
noted = record { score_a = 10; score_b = 9; reason = some "one goal was offside" }

-- the position is accepted, and does not fit
accepted_rows_fit_example :
    (row_fits audit_logs_table
        (audit_values (override_log 1 9 (loaded confirmed_row 1 confirmed_world) noted))
      ≡ true)
    × (row_fits audit_logs_table
          (audit_values (delete_log 1 9 (loaded confirmed_row 1 confirmed_world)))
        ≡ true)
    × (max_length characters 128 (some hearts) ≡ true)
    × (row_fits match_players_table (player_values (to_player 1 keeper))
        ≡ max_length characters 64 (some hearts))
unfolding player_valid position_valid reason_valid
accepted_rows_fit_example =
    accepted_rows_fit seen characters-le-seen 1 9 keeper (loaded confirmed_row 1 confirmed_world)
      noted refl refl refl refl refl refl

hearts_do_not_fit : max_length characters 64 (some hearts) ≡ false
unfolding characters
hearts_do_not_fit = refl

abbrev all_known : List String → List ForeignKey → Bool
all_known names [] = true
all_known names (k ∷ ks) = member k.table names && all_known names ks

-- each table refers to itself or to tables of earlier migrations
in_order : List String → List Migration → Bool
in_order names [] = true
in_order names (m ∷ ms) = elim m.up [
  | create_table_if_not_exists t ↦
      all_known (t.name ∷ names) t.foreign_keys && in_order (t.name ∷ names) ms
  | drop_table_if_exists name ↦ false
]

migrations_in_order : in_order [] migrations ≡ true
unfolding in_order
migrations_in_order = refl
