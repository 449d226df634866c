-- ===== src/Worker.antt =====
-- apps/worker/src/processors: the consumers of the three queues.
-- A processor that throws fails its job, which BullMQ retries.
pub mod Audit
pub mod Invalidation
mod Tests
use Prim.Native.String.{◌++◌}
use foosball_api.Prelude.{
  ℕ, ◌≤◌, Bool, not, Option, none, some, String, List, [], ◌∷◌, ◌++◌ as ◌+++◌, ◌==◌, leb, get_or,
  if◌then◌else◌,
}
use foosball_api.Http.{Result, ok, err, error}
use foosball_api.Action.{Action, ◌>>=◌, ◌>>◌, pure, throw, throw_if}
use foosball_api.Events.{
  EventEnvelope, MatchConfirmedPayload, LeaderboardInvalidatePayload, AuditLogPayload, TimeFilter,
  Payload, audit_log, Job, QueueName, queue_audit,
}
use foosball_api.Matches.Entity.{AuditLog}
use foosball_api.Matches.Orm.{Orm}
use foosball_api.Matches.World.{World, save_audit_log}
use foosball_api.Redis.{Cache, Redis}
use foosball_api.Leaderboard.{filter_text}

abbrev pub wrong_version : {T : Type 0} → EventEnvelope T → Bool
wrong_version e = not (e.version == 1)

-- match-confirmed.processor.ts: it only logs
unfoldable pub process_match_confirmed :
    {S : Type 0} → EventEnvelope MatchConfirmedPayload → Action S (Unit {0})
process_match_confirmed e = throw_if (wrong_version e) error

-- `job.attemptsMade >= (job.opts.attempts ?? 1)`, the test of each `onFailed`
unfoldable pub is_dlq : ℕ → Option ℕ → Bool
is_dlq attempts_made attempts = leb (get_or attempts 1) attempts_made

-- audit-log.processor.ts
abbrev pub audit_entry : AuditLogPayload → AuditLog
audit_entry p = record {
  actor_id = some p.actor_id;
  action = p.action;
  entity_type = p.entity_type;
  entity_id = p.entity_id;
  before_data = p.before_data;
  after_data = p.after_data;
  reason = p.reason;
}

unfoldable pub process_audit_log : Orm → EventEnvelope AuditLogPayload → Action World (Unit {0})
process_audit_log o e = do
  throw_if (wrong_version e) error
  save_audit_log o (audit_entry e.payload)

-- the processor at the data of a job; it writes the columns of an audit row, which no other payload
-- has
unfoldable pub process_audit : Orm → EventEnvelope Payload → Payload → Action World (Unit {0})
unfolding process_audit_log
process_audit o e (audit_log p) = process_audit_log o (record {
  event_type = e.event_type;
  version = e.version;
  occurred_at = e.occurred_at;
  payload = p;
})
process_audit o e _ = throw error

-- `@Processor(QUEUE_AUDIT)`: a job of another queue is not this processor's
abbrev pub process_audit_of : Orm → QueueName → EventEnvelope Payload → Action World (Unit {0})
process_audit_of o queue_audit e = process_audit o e e.payload
process_audit_of o _ e = pure tt

-- the jobs in the order in which they were published; one that fails stops here, to be retried
unfoldable pub consume_audit : Orm → List Job → Action World (Unit {0})
unfolding process_audit
consume_audit o [] = pure tt
consume_audit o (j ∷ js) = process_audit_of o j.queue j.envelope >> consume_audit o js

-- leaderboard-invalidate.processor.ts; the prefix is the environment's QUEUE_PREFIX, or
-- "leaderboard"
abbrev pub worker_key : String → String → TimeFilter → String
worker_key prefix scope filter = prefix ++ (":" ++ scope ++ ":" ++ filter_text filter)

abbrev pub scope_keys : String → String → List TimeFilter → List String
scope_keys prefix scope [] = []
scope_keys prefix scope (f ∷ fs) = worker_key prefix scope f ∷ scope_keys prefix scope fs

abbrev pub keys_to_delete : String → List TimeFilter → List String
keys_to_delete prefix filters =
    scope_keys prefix "users" filters +++ scope_keys prefix "pairs" filters

abbrev pub delete_keys : Redis → List String → Action Cache (Unit {0})
delete_keys redis [] c = (ok tt, c)
delete_keys redis (k ∷ ks) c = elim (redis.del (k ∷ ks) c) [
  | none ↦ (err error, c)
  | some c' ↦ (ok tt, c')
]

unfoldable pub process_leaderboard_invalidate :
    String → Redis → EventEnvelope LeaderboardInvalidatePayload → Action Cache (Unit {0})
process_leaderboard_invalidate prefix redis e = do
  throw_if (wrong_version e) error
  delete_keys redis (keys_to_delete prefix e.payload.affected_filters)
