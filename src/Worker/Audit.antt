-- ===== src/Worker/Audit.antt =====
-- The audit job that an override publishes, when the worker processes it.
use mathlib.Core.Path.{subst}
use foosball_api.Prelude.{
  ℕ, ◌+◌, ◌≡◌, ◌∙◌, refl, sym, ap, Bool, true, some, List, [], ◌∷◌, ◌++◌, inl, inr, arith,
  Option-cases, count,
}
use foosball_api.Http.{Exception, Result, ok, err}
use foosball_api.Action.{bind-ok, bind-err, Outcome-cases}
use foosball_api.Events.{EventEnvelope, AuditLogPayload, Job}
use foosball_api.Matches.Entity.{MatchRow, AuditLog, is_confirmed}
use foosball_api.Matches.Dto.{AdminOverrideResultDto}
use foosball_api.Matches.Orm.{Orm, OrmLaws}
use foosball_api.Matches.World.{World}
use foosball_api.Matches.AdminOverride.{
  AdminOverrideResult, override_log, audit_payload, override_result,
}
use foosball_api.Matches.AdminOverride.Atomic.{audit_job, invalidate_job, override_ends}
use foosball_api.Matches.Invariant.Cancel.{loaded}
use foosball_api.Worker.{audit_entry, process_audit_log, process_audit, consume_audit}

abbrev audit_envelope :
    ℕ → ℕ → ℕ → MatchRow → World → AdminOverrideResultDto → EventEnvelope AuditLogPayload
audit_envelope now m actor r w dto = record {
  event_type = "audit-log-write";
  version = 1;
  occurred_at = now;
  payload = audit_payload m actor (loaded r m w) dto;
}

-- the worker's row is the row that the override has already saved
audit_entry-override_log :
    (m actor : ℕ) (r : MatchRow) (w : World) (dto : AdminOverrideResultDto)
    → audit_entry (audit_payload m actor (loaded r m w) dto)
      ≡ override_log m actor (loaded r m w) dto
audit_entry-override_log m actor r w dto = refl

process_audit_log-adds :
    {o : Orm} (laws : OrmLaws o) (e : EventEnvelope AuditLogPayload) (p : AuditLog → Bool)
    (w : World) {w' : World}
    → e.payload.entity_type ≡ "match"
    → p (audit_entry e.payload) ≡ true
    → process_audit_log o e w ≡ (ok tt, w')
    → count p (w'.db.find_audit_logs e.payload.entity_id)
      ≡ 1 + count p (w.db.find_audit_logs e.payload.entity_id)
unfolding process_audit_log
process_audit_log-adds {o} laws e p w kind passes done =
    elim (Option-cases (o.save_audit_log (audit_entry e.payload) w.db)) [
      | inl failed ↦ ground arith
      | inr (d, saved) ↦ ground (
        arith,
        (laws.save_audit_log (audit_entry e.payload) w.db d saved).added kind e.payload.entity_id p,
      )
    ]

cancel_prefix : (xs ys zs : List Job) → xs ++ ys ≡ xs ++ zs → ys ≡ zs
cancel_prefix [] ys zs e = e
cancel_prefix (x ∷ xs) ys zs e = cancel_prefix xs ys zs cc

two_after : (xs : List Job) (x y : Job) → (xs ++ x ∷ []) ++ y ∷ [] ≡ xs ++ x ∷ y ∷ []
two_after [] x y = refl
two_after (j ∷ xs) x y = ap (λ js. j ∷ js) (two_after xs x y)

failed-done :
    {A : Type 0} {y : Result A × World} {x : Exception} {s s' : World} {a : A}
    → y ≡ (err x, s)
    → y ≡ (ok a, s')
    → ⊥
failed-done failed done = cc

-- a pass over the two jobs of an override processes the audit job, and ends with what that leaves
consume_audit-override :
    (o : Orm) (now m actor : ℕ) (r : MatchRow) (w : World) (dto : AdminOverrideResultDto)
    (w' : World) {w'' : World}
    → consume_audit o (audit_job now m actor r w dto ∷ invalidate_job now ∷ []) w' ≡ (ok tt, w'')
    → process_audit_log o (audit_envelope now m actor r w dto) w' ≡ (ok tt, w'')
unfolding consume_audit process_audit
consume_audit-override o now m actor r w dto w' done =
    let step = process_audit_log o (audit_envelope now m actor r w dto) in
    let rest = λ (_ : Unit {0}). consume_audit o (invalidate_job now ∷ []) in
    elim (Outcome-cases (step w')) [
      | inl (u, w₁, e) ↦ e ∙ sym (bind-ok step rest w' e) ∙ done
      | inr (x, w₁, e) ↦ absurd (failed-done (bind-err step rest w' e) done)
    ]

-- If an override succeeds, and the worker then processes without a failure those of the jobs that
-- the override published that are in the audit queue, then there are two audit rows for the one
-- override: any count of the match's rows by a test that the override's row passes has grown by
-- two.
pub override_is_logged_twice :
    {o : Orm} (laws : OrmLaws o) (now m actor : ℕ) (dto : AdminOverrideResultDto)
    (p : AuditLog → Bool) (r : MatchRow) (w : World) {result : AdminOverrideResult}
    (published : List Job) {w' w'' : World}
    → w.db.find_row m ≡ some r
    → r.id ≡ m
    → is_confirmed r.status ≡ true
    → p (override_log m actor (loaded r m w) dto) ≡ true
    → override_result o now m actor true dto w ≡ (ok result, w')
    → w'.jobs ≡ w.jobs ++ published
    → consume_audit o published w' ≡ (ok tt, w'')
    → count p (w''.db.find_audit_logs m) ≡ 2 + count p (w.db.find_audit_logs m)
override_is_logged_twice {o} laws now m actor dto p r w published {w'} {w''} found keyed done passes
      sent grown processed =
    let once = rw sent at (override_ends laws now m actor dto p r w found keyed done) in
    let (row, answer, log, more, jobs) = once in
    let audit = audit_job now m actor r w dto in
    let both : published ≡ audit ∷ invalidate_job now ∷ [] =
      cancel_prefix w.jobs published _
        (sym grown ∙ jobs ∙ two_after w.jobs audit (invalidate_job now)) in
    let pass = subst (λ js. consume_audit o js w' ≡ (ok tt, w'')) both processed in
    let again =
      process_audit_log-adds laws (audit_envelope now m actor r w dto) p w' refl passes
        (consume_audit-override o now m actor r w dto w' pass) in
    ground (arith, more, passes, again)
