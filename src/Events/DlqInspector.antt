-- ===== src/Events/DlqInspector.antt =====
-- libs/events/src/dlq-inspector.service.ts, and the two routes of apps/api's admin.controller.ts
-- that use it. BullMQ's queues and the retry of a job are parameters; logging is left out.
pub mod Retry
pub mod Listed
mod Tests
use Prim.Native.String.{[], ◌∷◌, ◌++◌ as append}
use text.Mathlib.Text.{◌==◌ as str_eq, starts_with}
use foosball_api.Prelude.{
  ℕ, Bool, true, false, ◌||◌, Option, none, some, String, List, ◌++◌, map, get_or, if◌then◌else◌,
}
use foosball_api.Prelude as Lists
use foosball_api.Http.{err, ok, error, queue_required, job_not_found, bad_request, not_found}
use foosball_api.Action.{Action}
use foosball_api.Events.{QueueName, queue_matches, queue_leaderboard, queue_audit}

-- what is read of a failed job of BullMQ, but for its data
pub record BullJob : Type 0 where
  pub id : String
  pub name : String
  pub failed_reason : Option String
  pub attempts_made : ℕ
  pub timestamp : ℕ

-- the three queues, by the answers of `getFailed` and `getJob`
pub record Queues : Type 0 where
  pub get_failed : QueueName → List BullJob
  pub get_job : QueueName → String → Option BullJob

-- a promise of BullMQ or of the service: it is rejected with an error's message, or fulfilled
pub data Attempt : Type 0 where
  rejected : String → Attempt
  fulfilled : Queues → Attempt

pub record DlqJob : Type 0 where
  pub id : String
  pub name : String
  pub queue : String
  pub failed_reason : String
  pub attempts_made : ℕ
  pub timestamp : ℕ

-- queue-names.ts
abbrev pub queue_text : QueueName → String
queue_text queue_matches = "matches"
queue_text queue_leaderboard = "leaderboard"
queue_text queue_audit = "audit"

-- `this.queues.get(queueName)`
unfoldable pub queue_of : String → Option QueueName
queue_of name =
    if str_eq name "matches"
    then some queue_matches
    else if str_eq name "leaderboard"
    then some queue_leaderboard
    else if str_eq name "audit"
    then some queue_audit
    else none

abbrev pub dlq_job : String → BullJob → DlqJob
dlq_job queue_name job = record {
  id = job.id;
  name = job.name;
  queue = queue_name;
  failed_reason = get_or job.failed_reason "unknown";
  attempts_made = job.attempts_made;
  timestamp = job.timestamp;
}

unfoldable pub get_failed_from_queue : Queues → QueueName → String → List DlqJob
get_failed_from_queue s queue queue_name = map (dlq_job queue_name) (s.get_failed queue)

unfoldable pub list_all : Queues → List DlqJob
list_all s =
    get_failed_from_queue s queue_matches "matches"
    ++ (get_failed_from_queue s queue_leaderboard "leaderboard"
        ++ get_failed_from_queue s queue_audit "audit")

-- an empty name is none; a name that no queue has is only logged
unfoldable pub list_failed : Option String → Queues → List DlqJob
list_failed none s = list_all s
list_failed (some name) s =
    if str_eq name ""
    then list_all s
    else elim (queue_of name) [ none ↦ Lists.[] | some queue ↦ get_failed_from_queue s queue name ]

-- `bull` is `job.retry('failed')`
unfoldable pub retry_job :
    (QueueName → BullJob → Queues → Attempt) → String → String → Queues → Attempt
retry_job bull queue_name job_id s = elim (queue_of queue_name) [
  | none ↦ rejected (append "Unknown queue: " queue_name)
  | some queue ↦ elim (s.get_job queue job_id) [
    | none ↦ rejected (append "Job " (append job_id (append " not found in queue " queue_name)))
    | some job ↦ bull queue job s
  ]
]

-- `message.includes(text)`
unfoldable pub includes : String → String → Bool
includes [] text = starts_with "" text
includes (c ∷ message) text =
    let later = includes message text in starts_with (c ∷ message) text || later

pub record Requeued : Type 0 where
  pub job_id : String

abbrev pub no_queue : Option String → Bool
no_queue none = true
no_queue (some name) = str_eq name ""

abbrev pub requeued : String → Attempt → Action Queues Requeued
requeued job_id (fulfilled s') s = (ok (record { job_id = job_id }), s')
requeued job_id (rejected message) s =
    if includes message "not found" then (err (not_found job_not_found), s) else (err error, s)

unfoldable pub retry_dlq_job :
    (QueueName → BullJob → Queues → Attempt) → String → Option String → Action Queues Requeued
retry_dlq_job bull job_id queue s =
    if no_queue queue
    then (err (bad_request queue_required), s)
    else requeued job_id (retry_job bull (get_or queue "") job_id s) s
