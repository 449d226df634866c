-- ===== src/Schema/Stored.antt =====
-- What the tables of the migrations take of what the services write.
use foosball_api.Prelude.{ℕ, ◌*◌, ◌≤◌, ◌≡◌, ◌∙◌, ap, true, some, String, List, arith}
use foosball_api.Matches.Entity.{MatchRow, Match}
use foosball_api.Matches.Dto.{
  PlayerDto, AdminOverrideResultDto, player_valid, max_length, position_valid, reason_valid,
}
use foosball_api.Matches.MatchService.{to_player}
use foosball_api.Matches.AdminOverride.{override_log, delete_log}
use foosball_api.Matches.Orm.{Orm, OrmLaws}
use foosball_api.Matches.World.{World}
use foosball_api.Matches.Requests.{Caller, Request, serve}
use foosball_api.Matches.Invariant.Defs.{IsConsistent}
use foosball_api.Matches.Invariant.History.{serve-IsConsistent}
use foosball_api.Schema.{fits, admits, row_fits}
use foosball_api.Schema.Texts.{characters}
use foosball_api.Schema.Migrations.{matches_table, match_players_table, audit_logs_table}
use foosball_api.Schema.Fits.{
  match_row_fits, player_row_fits, position-characters, override_log_fits,
}
use foosball_api.Schema.Values.{
  match_values, player_values, audit_values, id_valid, optional_id_valid,
}

-- Whatever requests run one after the other over a consistent database, every match that is then
-- stored, under an id and a creator's id below 2 ^ 64, has in each column of the table of migration
-- 003 a value of the column's type, and NULL only where the column allows it.
pub stored_match_fits :
    {o : Orm} (laws : OrmLaws o) (qs : List (ℕ × Caller × Request)) (w : World) (m : ℕ)
    {r : MatchRow}
    → IsConsistent w.db
    → (serve o qs w).db.find_row m ≡ some r
    → id_valid m ≡ true
    → optional_id_valid r.created_by ≡ true
    → row_fits matches_table (match_values r) ≡ true
stored_match_fits {o} laws qs w m {r} h found stored creator =
    let at = (serve-IsConsistent laws qs w h m 0).row in
    let ok = rw found at at in match_row_fits r m _ _ ok (ap id_valid ok.keyed ∙ stored) creator

delete_log_fits :
    (m actor : ℕ) (e : Match)
    → id_valid m ≡ true
    → id_valid actor ≡ true
    → row_fits audit_logs_table (audit_values (delete_log m actor e)) ≡ true
unfolding fits admits
delete_log_fits m actor e stored known = ground arith

-- Where class-validator's length, which does not count a variation selector after another
-- character, is at least half the number of characters, and ids are below 2 ^ 64: the audit rows of
-- an override with a valid body and of the deletion of a confirmed match have in each column of
-- migration 006 a value of the column's type; and the row of a player of a valid request, whose
-- position has at most 128 characters, fits migration 004's table if and only if the position
-- has at most the 64 characters of its column.
pub accepted_rows_fit :
    (measure : String → ℕ) (counts : (s : String) → characters s ≤ 2 * measure s) (m actor : ℕ)
    (p : PlayerDto) (e : Match) (dto : AdminOverrideResultDto)
    → id_valid m ≡ true
    → id_valid actor ≡ true
    → id_valid p.user_id ≡ true
    → player_valid p ≡ true
    → position_valid measure p ≡ true
    → reason_valid measure dto ≡ true
    → (row_fits audit_logs_table (audit_values (override_log m actor e dto)) ≡ true)
      × (row_fits audit_logs_table (audit_values (delete_log m actor e)) ≡ true)
      × (max_length characters 128 p.position ≡ true)
      × (row_fits match_players_table (player_values (to_player m p))
          ≡ max_length characters 64 p.position)
accepted_rows_fit measure counts m actor p e dto stored acting known valid short noted = (
  override_log_fits measure counts m actor e dto stored acting noted,
  delete_log_fits m actor e stored acting,
  position-characters measure counts p short,
  player_row_fits m p stored known valid,
)
