-- ===== src/Schema/Fits.antt =====
-- The rows that the services write fit the columns that the migrations declare.
use foosball_api.Prelude.{
  ℕ, ◌*◌, ◌≤◌, ◌≡◌, refl, [], ◌∷◌, Bool, true, ◌&&◌, Option, none, some, inl, inr, Option-cases,
  String, arith,
}
use foosball_api.Matches.Entity.{
  MatchRow, Match, MatchType, MatchStatus, Team, team_a, team_b, one_v_one, two_v_two, four_v_four,
  draft, playing, awaiting_confirmation, confirmed, cancelled, match_type_text, status_text,
}
use foosball_api.Matches.Dto.{
  PlayerDto, AdminOverrideResultDto, player_valid, optional_score_valid, score_valid, max_length,
  position_valid, reason_valid,
}
use foosball_api.Matches.AdminOverride.{override_log}
use foosball_api.Matches.MatchService.{to_player}
use foosball_api.Matches.Invariant.Defs.{RowOk}
use foosball_api.Schema.{
  number, string, time, admits, fits, row_fits, Column, bigint_unsigned, text, varchar, not_null,
  tinyint_unsigned, datetime, enum, not_null_default, null_default,
}
use foosball_api.Schema.Texts.{characters, utf8-le-characters}
use foosball_api.Schema.Migrations.{matches_table, match_players_table, audit_logs_table}
use foosball_api.Schema.Values.{
  or_null, match_values, id_valid, optional_id_valid, team_text, player_values, audit_values,
}

-- a nullable column, at a value that may be NULL
module _ (name : String) where
  fits_id :
      (x : Option ℕ)
      → optional_id_valid x ≡ true
      → fits (null_default name bigint_unsigned) (or_null number x) ≡ true
  unfolding fits admits
  fits_id none h = refl
  fits_id (some n) h = h

  fits_score :
      (x : Option ℕ)
      → optional_score_valid x ≡ true
      → fits (null_default name tinyint_unsigned) (or_null number x) ≡ true
  unfolding fits admits optional_score_valid score_valid
  fits_score none h = refl
  fits_score (some n) h = ground (arith, h)

  fits_time : (x : Option ℕ) → fits (null_default name datetime) (or_null time x) ≡ true
  unfolding fits admits
  fits_time none = refl
  fits_time (some t) = refl

fits_type :
    (t : MatchType)
    → fits
        (not_null_default "match_type" (enum ("1v1" ∷ "2v2" ∷ "4v4" ∷ [])))
        (string (match_type_text t))
      ≡ true
unfolding fits admits
fits_type one_v_one = refl
fits_type two_v_two = refl
fits_type four_v_four = refl

abbrev status_column : Column
status_column =
    not_null_default "status"
      (enum ("draft" ∷ "playing" ∷ "awaiting_confirmation" ∷ "confirmed" ∷ "cancelled" ∷ []))

fits_status : (t : MatchStatus) → fits status_column (string (status_text t)) ≡ true
unfolding fits admits
fits_status draft = refl
fits_status playing = refl
fits_status awaiting_confirmation = refl
fits_status confirmed = refl
fits_status cancelled = refl

all_true :
    {a b c d e f g h : Bool}
    → a ≡ true
    → b ≡ true
    → c ≡ true
    → d ≡ true
    → e ≡ true
    → f ≡ true
    → g ≡ true
    → h ≡ true
    → (a && (b && (c && (d && (e && (f && (true && (true && (g && (h && true)))))))))) && true
      ≡ true
all_true a b c d e f g h = ground arith

pub match_row_fits :
    (r : MatchRow) (i players confirmations : ℕ)
    → RowOk i r players confirmations
    → id_valid r.id ≡ true
    → optional_id_valid r.created_by ≡ true
    → row_fits matches_table (match_values r) ≡ true
unfolding fits admits
match_row_fits r i players confirmations ok stored creator =
    all_true stored (fits_id "created_by" r.created_by creator) (fits_type r.match_type)
      (fits_status r.status) (fits_score "score_a" r.score_a ok.bounded_a)
      (fits_score "score_b" r.score_b ok.bounded_b) (fits_time "confirmed_at" r.confirmed_at)
      (fits_time "locked_at" r.locked_at)

fits_team :
    (t : Team) → fits (not_null "team" (enum ("A" ∷ "B" ∷ []))) (string (team_text t)) ≡ true
unfolding fits admits
fits_team team_a = refl
fits_team team_b = refl

fits_position :
    (x : Option String)
    → fits (null_default "position" (varchar 64)) (or_null string x) ≡ max_length characters 64 x
unfolding fits admits
fits_position none = refl
fits_position (some s) = refl

pub player_row_fits :
    (m : ℕ) (p : PlayerDto)
    → id_valid m ≡ true
    → id_valid p.user_id ≡ true
    → player_valid p ≡ true
    → row_fits match_players_table (player_values (to_player m p))
      ≡ max_length characters 64 p.position
unfolding fits admits player_valid
player_row_fits m p stored known valid =
    ground (arith, fits_team p.team, fits_position p.position, stored, known, valid)

module _ (measure : String → ℕ) (counts : (s : String) → characters s ≤ 2 * measure s) where
  pub position-characters :
      (p : PlayerDto)
      → position_valid measure p ≡ true
      → max_length characters 128 p.position ≡ true
  unfolding position_valid
  position-characters p short = elim (Option-cases p.position) [
    | inl none_given ↦ ground (arith, none_given)
    | inr (s, given) ↦ ground (arith, given, short, counts s)
  ]

  fits_reason :
      (dto : AdminOverrideResultDto)
      → reason_valid measure dto ≡ true
      → fits (null_default "reason" text) (or_null string dto.reason) ≡ true
  unfolding fits admits reason_valid
  fits_reason dto short = elim (Option-cases dto.reason) [
    | inl none_given ↦ ground (arith, none_given)
    | inr (s, given) ↦ ground (arith, given, short, counts s, utf8-le-characters s)
  ]

  pub override_log_fits :
      (m actor : ℕ) (e : Match) (dto : AdminOverrideResultDto)
      → id_valid m ≡ true
      → id_valid actor ≡ true
      → reason_valid measure dto ≡ true
      → row_fits audit_logs_table (audit_values (override_log m actor e dto)) ≡ true
  unfolding fits admits
  override_log_fits m actor e dto stored known short =
      ground (arith, fits_reason dto short, stored, known)
