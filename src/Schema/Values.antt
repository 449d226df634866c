-- ===== src/Schema/Values.antt =====
-- The rows that the services write, by the value of each column.
use package.text.Mathlib.Text.{◌==◌ as str_eq}
use foosball_api.Prelude.{ℕ, Bool, true, Option, none, some, String, ltb, if◌then◌else◌}
use foosball_api.Matches.Entity.{
  MatchRow, AuditLog, MatchPlayer, Team, team_a, team_b, match_type_text, status_text,
}
use foosball_api.Schema.{Value, null, by_default, number, string, time, object, bigint_end, text}

abbrev pub or_null : {A : Type 0} → (A → Value) → Option A → Value
or_null f none = null
or_null f (some x) = f x

-- the columns of a match; the two times that the database stamps are its defaults
abbrev pub match_values : MatchRow → String → Value
match_values r name =
    if str_eq name "id"
    then number r.id
    else if str_eq name "created_by"
    then or_null number r.created_by
    else if str_eq name "match_type"
    then string (match_type_text r.match_type)
    else if str_eq name "status"
    then string (status_text r.status)
    else if str_eq name "score_a"
    then or_null number r.score_a
    else if str_eq name "score_b"
    then or_null number r.score_b
    else if str_eq name "confirmed_at"
    then or_null time r.confirmed_at
    else if str_eq name "locked_at"
    then or_null time r.locked_at
    else by_default

abbrev pub id_valid : ℕ → Bool
id_valid n = ltb n bigint_end

abbrev pub optional_id_valid : Option ℕ → Bool
optional_id_valid none = true
optional_id_valid (some n) = id_valid n

abbrev pub team_text : Team → String
team_text team_a = "A"
team_text team_b = "B"

abbrev pub player_values : MatchPlayer → String → Value
player_values p name =
    if str_eq name "match_id"
    then number p.match_id
    else if str_eq name "user_id"
    then number p.user_id
    else if str_eq name "team"
    then string (team_text p.team)
    else if str_eq name "slot"
    then number p.slot
    else if str_eq name "position"
    then or_null string p.position
    else by_default

abbrev pub audit_values : AuditLog → String → Value
audit_values l name =
    if str_eq name "actor_id"
    then or_null number l.actor_id
    else if str_eq name "action"
    then string l.action
    else if str_eq name "entity_type"
    then string l.entity_type
    else if str_eq name "entity_id"
    then number l.entity_id
    else if str_eq name "before_data"
    then object
    else if str_eq name "after_data"
    then object
    else if str_eq name "reason"
    then or_null string l.reason
    else by_default
