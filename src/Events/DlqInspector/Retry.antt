-- ===== src/Events/DlqInspector/Retry.antt =====
-- How the retry of a failed job ends.
use Prim.Native.String.append
use Prim.Native.String.{[], ◌∷◌, ◌++◌ as append_text}
use text.Mathlib.Text.{starts_with}
use text.Mathlib.TextPositions.{starts_with-append}
use text.Mathlib.TextLemmas.{append_assoc}
use foosball_api.Prelude.{
  ◌≡◌, ◌∙◌, ◌⊎◌, refl, ap, Bool, ◌||◌, true, false, Option, none, some, String, get_or, inl, inr,
  arith, Bool-cases, Option-cases, if◌then◌else◌,
}
use foosball_api.Http.{
  Result, ok, err, error, queue_required, job_not_found, bad_request, not_found,
}
use foosball_api.Events.{QueueName}
use foosball_api.Events.DlqInspector.{
  BullJob, Queues, Attempt, rejected, fulfilled, Requeued, queue_of, retry_job, includes, no_queue,
  requeued, retry_dlq_job,
}

includes_prefix :
    (message text : String) → starts_with message text ≡ true → includes message text ≡ true
unfolding includes
includes_prefix [] text h = h
includes_prefix (c ∷ message) text h = rw h refl

or_later : (a : Bool) {b : Bool} → b ≡ true → (a || b) ≡ true
or_later true h = refl
or_later false h = h

includes_later :
    (a b text : String) → includes b text ≡ true → includes (append_text a b) text ≡ true
unfolding includes
includes_later [] b text h = rw (append.nil b) h
includes_later (c ∷ a) b text h =
    rw (append.cons c a b)
      (or_later (starts_with (c ∷ append_text a b) text) (includes_later a b text h))

-- the message of a job that the queue does not hold
includes-not_found :
    (job_id queue_name : String)
    → includes
        (append_text "Job " (append_text job_id (append_text " not found in queue " queue_name)))
        "not found"
      ≡ true
includes-not_found job_id queue_name =
    let tail = append_text " in queue " queue_name in
    let split : append_text " not found in queue " queue_name
        ≡ append_text " " (append_text "not found" tail) =
      append_assoc " not found" " in queue " queue_name ∙ append_assoc " " "not found" tail in
    includes_later "Job " (append_text job_id (append_text " not found in queue " queue_name))
      "not found"
      (includes_later job_id (append_text " not found in queue " queue_name) "not found" (
        rw split (
          includes_later " " (append_text "not found" tail) "not found" (
            includes_prefix (append_text "not found" tail) "not found"
              (starts_with-append "not found" tail)))))

-- how a retry ends at the queue `queue`, of which `found` is the job
abbrev pub RetryAt :
    (QueueName → BullJob → Queues → Attempt)
    → String
    → QueueName
    → Option BullJob
    → Queues
    → Result Requeued × Queues
    → Type 0
RetryAt bull job_id queue none s r = r ≡ (err (not_found job_not_found), s)
RetryAt bull job_id queue (some job) s r =
    ((s' : Queues) × (bull queue job s ≡ fulfilled s')
      × (r ≡ (ok (record { job_id = job_id }), s')))
    ⊎ ((message : String) × (bull queue job s ≡ rejected message)
        × (r ≡ (err (if includes message "not found" then not_found job_not_found else error), s)))

module _ (bull : QueueName → BullJob → Queues → Attempt) (job_id : String) (s : Queues) where
  requeued-rejected :
      (message : String)
      → requeued job_id (rejected message) s
        ≡ (err (if includes message "not found" then not_found job_not_found else error), s)
  requeued-rejected message = ground arith

  requeued-cases :
      (a : Attempt)
      → ((s' : Queues) × (a ≡ fulfilled s')
          × (requeued job_id a s ≡ (ok (record { job_id = job_id }), s')))
        ⊎ ((message : String) × (a ≡ rejected message)
            × (requeued job_id a s ≡ (
              err (if includes message "not found" then not_found job_not_found else error),
              s,
            )))
  requeued-cases (fulfilled s') = inl (s', refl, refl)
  requeued-cases (rejected message) = inr (message, refl, requeued-rejected message)

  pub retry_job-held :
      (name : String) {queue : QueueName} {job : BullJob}
      → queue_of name ≡ some queue
      → s.get_job queue job_id ≡ some job
      → retry_job bull name job_id s ≡ bull queue job s
  unfolding retry_job
  retry_job-held name named held = ground arith

  retry_job-absent :
      (name : String) {queue : QueueName}
      → queue_of name ≡ some queue
      → s.get_job queue job_id ≡ none
      → retry_job bull name job_id s
        ≡ rejected
            (append_text "Job " (append_text job_id (append_text " not found in queue " name)))
  unfolding retry_job
  retry_job-absent name named absent = ground arith

  retry_job-unknown :
      (name : String)
      → queue_of name ≡ none
      → retry_job bull name job_id s ≡ rejected (append_text "Unknown queue: " name)
  unfolding retry_job
  retry_job-unknown name unknown = ground arith

  retry_job-RetryAt :
      (name : String) (queue : QueueName)
      → queue_of name ≡ some queue
      → RetryAt bull job_id queue
          (s.get_job queue job_id)
          s
          (requeued job_id (retry_job bull name job_id s) s)
  retry_job-RetryAt name queue named = elim (Option-cases (s.get_job queue job_id)) [
    | inl absent ↦
        rw (absent, retry_job-absent name named absent) (rw (includes-not_found job_id name) refl)
    | inr (job, held) ↦
        rw (held, retry_job-held name named held) (requeued-cases (bull queue job s))
  ]

pub retry_dlq_job-given :
    (bull : QueueName → BullJob → Queues → Attempt) (job_id : String) (queue : Option String)
    (s : Queues)
    → no_queue queue ≡ false
    → retry_dlq_job bull job_id queue s
      ≡ requeued job_id (retry_job bull (get_or queue "") job_id s) s
unfolding retry_dlq_job
retry_dlq_job-given bull job_id queue s given = rw given refl

retry_dlq_job-missing :
    (bull : QueueName → BullJob → Queues → Attempt) (job_id : String) (queue : Option String)
    (s : Queues)
    → no_queue queue ≡ true
    → retry_dlq_job bull job_id queue s ≡ (err (bad_request queue_required), s)
unfolding retry_dlq_job
retry_dlq_job-missing bull job_id queue s missing = rw missing refl

-- The retry of a job by its id: without the name of a queue it is a 400. With a name that no queue
-- has it fails with no status, unless that name says "not found" itself, which makes it a 404. With
-- a queue's name it is a 404 if the queue does not hold the job; otherwise the job is put back, or
-- BullMQ's rejection is passed on, as a 404 if its message says "not found" and with no status if
-- not. Only a job that is put back changes the queues.
pub retry_ends :
    (bull : QueueName → BullJob → Queues → Attempt) (job_id : String) (queue : Option String)
    (s : Queues)
    → ((no_queue queue ≡ true)
        × (retry_dlq_job bull job_id queue s ≡ (err (bad_request queue_required), s)))
      ⊎ ((no_queue queue ≡ false)
          × (queue_of (get_or queue "") ≡ none)
          × (retry_dlq_job bull job_id queue s ≡ (
            err (
                if includes (append_text "Unknown queue: " (get_or queue "")) "not found"
                then not_found job_not_found
                else error),
            s,
          )))
      ⊎ ((no_queue queue ≡ false)
          × (q : QueueName) × (queue_of (get_or queue "") ≡ some q)
          × RetryAt bull job_id q (s.get_job q job_id) s (retry_dlq_job bull job_id queue s))
retry_ends bull job_id queue s = elim (Bool-cases (no_queue queue)) [
  | inl missing ↦ inl (missing, retry_dlq_job-missing bull job_id queue s missing)
  | inr given ↦
      let name = get_or queue "" in
      let runs = retry_dlq_job-given bull job_id queue s given in
      elim (Option-cases (queue_of name)) [
        | inl unknown ↦ inr (
            inl (
              given,
              unknown,
              runs
                  ∙ ap (λ a. requeued job_id a s) (retry_job-unknown bull job_id s name unknown)
                  ∙ requeued-rejected bull job_id s (append_text "Unknown queue: " name),
            ))
        | inr (q, named) ↦
            inr (inr (given, q, named, rw runs (retry_job-RetryAt bull job_id s name q named)))
      ]
]
