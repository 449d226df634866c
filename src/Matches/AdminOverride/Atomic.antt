-- ===== src/Matches/AdminOverride/Atomic.antt =====
-- An override is all or nothing in the database, but not in the queues.
use foosball_api.Prelude.{
  ℕ, ◌+◌, ◌≡◌, ◌⊎◌, refl, Bool, true, some, [], ◌∷◌, ◌++◌, inl, inr, arith, Bool-cases,
  Option-cases, count, if◌then◌else◌,
}
use foosball_api.Http.{Result, ok, err, internal, audit_log_write_failed}
use foosball_api.Events.{Job, queue_audit, queue_leaderboard}
use foosball_api.Matches.Entity.{MatchRow, AuditLog, is_confirmed}
use foosball_api.Matches.Dto.{AdminOverrideResultDto}
use foosball_api.Matches.Orm.{Orm, OrmLaws}
use foosball_api.Matches.World.{World}
use foosball_api.Matches.AdminOverride.{
  AdminOverrideResult, override_log, override_writes, override_result, audit_event,
  invalidate_event,
}
use foosball_api.Matches.Invariant.Cancel.{loaded}
use foosball_api.Matches.Invariant.Override.{rescored}

abbrev pub audit_job : ℕ → ℕ → ℕ → MatchRow → World → AdminOverrideResultDto → Job
audit_job now m actor r w dto = record {
  queue = queue_audit;
  name = "audit-log-write";
  envelope = audit_event now m actor (loaded r m w) dto;
}

abbrev pub invalidate_job : ℕ → Job
invalidate_job now = record {
  queue = queue_leaderboard;
  name = "leaderboard-invalidate";
  envelope = invalidate_event now;
}

-- How an override of the confirmed row `r` ends. It succeeds: the row has the new scores and is
-- otherwise as it was, a count of audit rows by any test `p` has grown by the override's row, and
-- both events are published. Or it throws its error 500: the database is as it was, and none, the
-- first, or both of the events have been published.
abbrev pub OverrideEnds :
    ℕ
    → ℕ
    → ℕ
    → AdminOverrideResultDto
    → (AuditLog → Bool)
    → MatchRow
    → World
    → Result AdminOverrideResult × World
    → Type 0
OverrideEnds now m actor dto p r w (ok result, w') =
    (w'.db.find_row m ≡ some (rescored r dto))
    × (result.match.row ≡ rescored r dto)
    × (result.audit_log ≡ override_log m actor (loaded r m w) dto)
    × (count p (w'.db.find_audit_logs m)
        ≡ (if p (override_log m actor (loaded r m w) dto) then 1 else 0)
          + count p (w.db.find_audit_logs m))
    × (w'.jobs ≡ (w.jobs ++ audit_job now m actor r w dto ∷ []) ++ invalidate_job now ∷ [])
OverrideEnds now m actor dto p r w (err e, w') =
    (e ≡ internal audit_log_write_failed)
    × (w'.db ≡ w.db)
    × ((w'.jobs ≡ w.jobs)
        ⊎ (w'.jobs ≡ w.jobs ++ audit_job now m actor r w dto ∷ [])
        ⊎ (w'.jobs ≡ (w.jobs ++ audit_job now m actor r w dto ∷ []) ++ invalidate_job now ∷ []))

-- An administrator's override of a confirmed match is all or nothing: it succeeds with the new
-- scores in a row that is otherwise unchanged, one more audit row for the match, which holds the
-- scores before and after, and both events published; or it answers 500 AUDIT_LOG_WRITE_FAILED
-- with the database as it was, though any first part of the two events may have been published.
pub override_ends :
    {o : Orm} (laws : OrmLaws o) (now m actor : ℕ) (dto : AdminOverrideResultDto)
    (p : AuditLog → Bool) (r : MatchRow) (w : World)
    → w.db.find_row m ≡ some r
    → r.id ≡ m
    → is_confirmed r.status ≡ true
    → OverrideEnds now m actor dto p r w (override_result o now m actor true dto w)
unfolding override_result override_writes
override_ends {o} laws now m actor dto p r w found keyed done =
    elim (Option-cases (o.save_match (rescored r dto) (some (w.db.find_players m)) w.db)) [
      | inl failed ↦ ground arith
      | inr (d, saved) ↦
          elim (Option-cases (o.save_audit_log (override_log m actor (loaded r m w) dto) d)) [
            | inl failed ↦ ground arith
            | inr (d', logged) ↦
                let row =
                  laws.save_match (rescored r dto) (some (w.db.find_players m)) w.db d saved in
                let log =
                  laws.save_audit_log (override_log m actor (loaded r m w) dto) d d' logged in
                let first = w.jobs ++ audit_job now m actor r w dto ∷ [] in
                elim (Bool-cases (o.accepts w.jobs (audit_job now m actor r w dto))) [
                  | inr refused ↦ ground arith
                  | inl accepted ↦ elim (Bool-cases (o.accepts first (invalidate_job now))) [
                    | inr refused ↦ ground arith
                    | inl both ↦ elim (Bool-cases (o.commits d')) [
                      | inr lost ↦ ground arith
                      | inl kept ↦
                          ground (arith, row.row m, row.logs m, log.rows m, log.added refl m p)
                    ]
                  ]
                ]
          ]
    ]
