-- ===== src/Matches/Entity.antt =====
-- libs/matches/src/entities: the columns of the four tables. Times are milliseconds; `updatedAt`,
-- and the generated `id` and `createdAt` of audit rows and `createdAt` of matches, which the
-- modelled operations do not read, are left out. `players` is the loaded relation of a match.
use foosball_api.Prelude.{ℕ, Bool, true, false, ◌||◌, Option, String, List}
use foosball_api.Events.{Snapshot}

pub data MatchType : Type 0 where
  one_v_one two_v_two four_v_four : MatchType

pub data MatchStatus : Type 0 where
  draft playing awaiting_confirmation confirmed cancelled : MatchStatus

pub data Team : Type 0 where
  team_a team_b : Team

pub record MatchRow : Type 0 where
  pub id : ℕ
  pub created_by : Option ℕ
  pub match_type : MatchType
  pub status : MatchStatus
  pub score_a : Option ℕ
  pub score_b : Option ℕ
  pub confirmed_at : Option ℕ
  pub locked_at : Option ℕ

pub record MatchPlayer : Type 0 where
  pub match_id : ℕ
  pub user_id : ℕ
  pub team : Team
  pub slot : ℕ
  pub position : Option String

pub record MatchConfirmation : Type 0 where
  pub match_id : ℕ
  pub user_id : ℕ
  pub confirmed_at : ℕ

pub record AuditLog : Type 0 where
  pub actor_id : Option ℕ
  pub action : String
  pub entity_type : String
  pub entity_id : ℕ
  pub before_data : Snapshot
  pub after_data : Snapshot
  pub reason : Option String

-- A match entity: its row, and its `players` where they are loaded.
pub record Match : Type 0 where
  pub row : MatchRow
  pub open row use *
  pub players : Option (List MatchPlayer)

abbrev pub is_awaiting : MatchStatus → Bool
is_awaiting awaiting_confirmation = true
is_awaiting _ = false

abbrev pub is_confirmed : MatchStatus → Bool
is_confirmed confirmed = true
is_confirmed _ = false

abbrev pub is_draft : MatchStatus → Bool
is_draft draft = true
is_draft _ = false

-- `status === 'awaiting_confirmation' || status === 'confirmed'`
abbrev pub is_locked : MatchStatus → Bool
is_locked s = is_awaiting s || is_confirmed s

abbrev pub status_text : MatchStatus → String
status_text draft = "draft"
status_text playing = "playing"
status_text awaiting_confirmation = "awaiting_confirmation"
status_text confirmed = "confirmed"
status_text cancelled = "cancelled"

abbrev pub match_type_text : MatchType → String
match_type_text one_v_one = "1v1"
match_type_text two_v_two = "2v2"
match_type_text four_v_four = "4v4"

abbrev pub same_team : Team → Team → Bool
same_team team_a team_a = true
same_team team_b team_b = true
same_team _ _ = false
