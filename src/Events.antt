-- ===== src/Events.antt =====
-- libs/events: queue names, event payloads, the envelope and the jobs that BullMQ holds.
pub mod DlqInspector
use foosball_api.Prelude.{ℕ, Bool, false, Option, String, List, ◌==◌}

-- queue-names.ts
pub data QueueName : Type 0 where
  queue_matches queue_leaderboard queue_audit : QueueName

-- event-envelope.ts; `occurred_at` is a time in milliseconds
pub record EventEnvelope (T : Type 0) : Type 0 where
  pub event_type : String
  pub version : ℕ
  pub occurred_at : ℕ
  pub payload : T

pub data WinnerTeam : Type 0 where
  winner_a winner_b draw : WinnerTeam

pub data TimeFilter : Type 0 where
  week month year total : TimeFilter

pub record MatchConfirmedPayload : Type 0 where
  pub match_id : ℕ
  pub winner_team : WinnerTeam
  pub score_a : ℕ
  pub score_b : ℕ
  pub confirmed_at : ℕ

-- `match_type` is the text of the match's type
pub record MatchResultSubmittedPayload : Type 0 where
  pub match_id : ℕ
  pub match_type : String
  pub score_a : ℕ
  pub score_b : ℕ

pub record MatchCancelledPayload : Type 0 where
  pub match_id : ℕ
  pub cancelled_by : ℕ

pub record LeaderboardInvalidatePayload : Type 0 where
  pub reason : String
  pub affected_filters : List TimeFilter

-- The JSON objects that the program stores as `beforeData` and `afterData`: two scores, two
-- scores with a status, or no field.
pub data Snapshot : Type 0 where
  scores : Option ℕ → Option ℕ → Snapshot
  scores_status : Option ℕ → Option ℕ → String → Snapshot
  no_fields : Snapshot

pub record AuditLogPayload : Type 0 where
  pub entity_type : String
  pub entity_id : ℕ
  pub action : String
  pub actor_id : ℕ
  pub before_data : Snapshot
  pub after_data : Snapshot
  pub reason : Option String

pub data Payload : Type 0 where
  match_confirmed : MatchConfirmedPayload → Payload
  match_result_submitted : MatchResultSubmittedPayload → Payload
  match_cancelled : MatchCancelledPayload → Payload
  leaderboard_invalidate : LeaderboardInvalidatePayload → Payload
  audit_log : AuditLogPayload → Payload

-- One call of `queue.add(name, envelope, defaultJobOptions)`.
pub record Job : Type 0 where
  pub queue : QueueName
  pub name : String
  pub envelope : EventEnvelope Payload

-- Is the job the announcement that the match was confirmed?
abbrev pub announces_payload : ℕ → Payload → Bool
announces_payload m (match_confirmed p) = p.match_id == m
announces_payload m _ = false

abbrev pub announces : ℕ → Job → Bool
announces m j = announces_payload m j.envelope.payload
