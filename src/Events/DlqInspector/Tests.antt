-- ===== src/Events/DlqInspector/Tests.antt =====
-- The theorems on failed jobs at three queues, one of which holds a failed job.
use Prim.Native.String.{◌++◌ as append_text}
use text.Mathlib.Text.{◌==◌ as str_eq}
use foosball_api.Prelude.{
  Every, ◌≡◌, ◌⊎◌, refl, true, false, Option, none, some, String, List, [], ◌∷◌, if◌then◌else◌,
}
use foosball_api.Http.{err, error, queue_required, job_not_found, bad_request, not_found}
use foosball_api.Events.{QueueName, queue_audit}
use foosball_api.Events.DlqInspector.{
  BullJob, Queues, Attempt, fulfilled, queue_of, includes, no_queue, list_failed, retry_dlq_job,
}
use foosball_api.Events.DlqInspector.Retry.{RetryAt, retry_ends}
use foosball_api.Events.DlqInspector.Listed.{Handed, listed_jobs_can_be_retried}

abbrev failed_job : BullJob
failed_job = record {
  id = "42";
  name = "audit-log-write";
  failed_reason = none;
  attempts_made = 5;
  timestamp = 1000;
}

abbrev failed : QueueName → List BullJob
failed queue_audit = failed_job ∷ []
failed _ = []

abbrev held : QueueName → String → Option BullJob
held queue_audit id = if str_eq id "42" then some failed_job else none
held _ id = none

abbrev queues : Queues
queues = record { get_failed = failed; get_job = held }

abbrev put_back : QueueName → BullJob → Queues → Attempt
put_back queue job s = fulfilled (record { get_failed = λ _. []; get_job = s.get_job })

retry_ends_example :
    ((no_queue (some "audit") ≡ true)
      × (retry_dlq_job put_back "41" (some "audit") queues
          ≡ (err (bad_request queue_required), queues)))
    ⊎ ((no_queue (some "audit") ≡ false)
        × (queue_of "audit" ≡ none)
        × (retry_dlq_job put_back "41" (some "audit") queues ≡ (
          err (
              if includes (append_text "Unknown queue: " "audit") "not found"
              then not_found job_not_found
              else error),
          queues,
        )))
    ⊎ ((no_queue (some "audit") ≡ false)
        × (q : QueueName) × (queue_of "audit" ≡ some q)
        × RetryAt put_back "41" q
            (queues.get_job q "41")
            queues
            (retry_dlq_job put_back "41" (some "audit") queues))
retry_ends_example = retry_ends put_back "41" (some "audit") queues

all_held :
    (q : QueueName) → Every (λ (j : BullJob). queues.get_job q j.id ≡ some j) (queues.get_failed q)
all_held QueueName.queue_matches = tt
all_held QueueName.queue_leaderboard = tt
all_held queue_audit = (refl, tt)

listed_jobs_can_be_retried_example : Every (Handed put_back queues) (list_failed none queues)
listed_jobs_can_be_retried_example = listed_jobs_can_be_retried put_back queues all_held none
