-- ===== src/Events/DlqInspector/Listed.antt =====
-- What is listed as failed can be retried.
use text.Mathlib.Text.{◌==◌ as str_eq}
use foosball_api.Prelude.{
  Every, Every-of, Every-map, Every-append, ◌≡◌, ◌∙◌, refl, ap, false, Option, none, some, String,
  ◌++◌, inl, inr, Bool-cases, Option-cases,
}
use foosball_api.Events.{QueueName, queue_matches, queue_leaderboard, queue_audit}
use foosball_api.Events.DlqInspector.{
  BullJob, Queues, Attempt, DlqJob, queue_of, dlq_job, get_failed_from_queue, list_all, list_failed,
  no_queue, requeued, retry_dlq_job,
}
use foosball_api.Events.DlqInspector.Retry.{retry_dlq_job-given, retry_job-held}

-- the job that is listed as `e`, found by the id and put back by BullMQ
abbrev pub Handed : (QueueName → BullJob → Queues → Attempt) → Queues → DlqJob → Type 0
Handed bull s e =
    (q : QueueName) × (job : BullJob) × (queue_of e.queue ≡ some q)
    × (s.get_job q e.id ≡ some job)
    × (retry_dlq_job bull e.id (some e.queue) s ≡ requeued e.id (bull q job s) s)

module _ (bull : QueueName → BullJob → Queues → Attempt) (s : Queues)
    (held : (q : QueueName)
      → Every (λ (j : BullJob). s.get_job q j.id ≡ some j) (s.get_failed q)) where
  listed-Handed :
      (name : String) (q : QueueName)
      → queue_of name ≡ some q
      → no_queue (some name) ≡ false
      → Every (Handed bull s) (get_failed_from_queue s q name)
  unfolding get_failed_from_queue
  listed-Handed name q named given = Every-map (Handed bull s) (dlq_job name) (s.get_failed q) (
      Every-of
        (λ j there. (
          q,
          j,
          named,
          there,
          retry_dlq_job-given bull j.id (some name) s given
              ∙ ap (λ a. requeued j.id a s) (retry_job-held bull j.id s name named there),
        ))
        (s.get_failed q) (held q))

  all-Handed : Every (Handed bull s) (list_all s)
  unfolding list_all queue_of
  all-Handed =
      Every-append (Handed bull s) (get_failed_from_queue s queue_matches "matches")
        (get_failed_from_queue s queue_leaderboard "leaderboard"
          ++ get_failed_from_queue s queue_audit "audit")
        (listed-Handed "matches" queue_matches refl refl)
        (Every-append (Handed bull s) (get_failed_from_queue s queue_leaderboard "leaderboard")
          (get_failed_from_queue s queue_audit "audit")
          (listed-Handed "leaderboard" queue_leaderboard refl refl)
          (listed-Handed "audit" queue_audit refl refl))

  -- Where a queue's failed jobs are found by their ids: whatever queue is asked for, or none, each
  -- job of the list of failed jobs can be retried with the queue and the id of its entry, which
  -- hands that very job to BullMQ.
  pub listed_jobs_can_be_retried :
      (queue : Option String) → Every (Handed bull s) (list_failed queue s)
  unfolding list_failed
  listed_jobs_can_be_retried none = all-Handed
  listed_jobs_can_be_retried (some name) = elim (Bool-cases (str_eq name "")) [
    | inl empty ↦ rw empty all-Handed
    | inr given ↦ rw given (elim (Option-cases (queue_of name)) [
      | inl unknown ↦ rw unknown tt
      | inr (q, named) ↦ rw named (listed-Handed name q named given)
    ])
  ]
