-- ===== src/Matches/AdminOverride.antt =====
-- services/admin-override.service.ts: overriding a confirmed result, deleting a match, and the
-- audit log.
pub mod Atomic
pub mod Deletion
use foosball_api.Prelude.{ℕ, Bool, not, some, List, [], ◌∷◌}
use foosball_api.Http.{
  Result, ok, err, match_not_found, match_not_confirmed, forbidden_admin_required,
  audit_log_write_failed, forbidden, not_found, conflict, internal,
}
use foosball_api.Action.{Action, pure, gets, or_throw, ◌>>=◌, ◌>>◌, throw_if, when}
use foosball_api.Events.{
  EventEnvelope, Payload, AuditLogPayload, scores, scores_status, no_fields, week, month, year,
  total, audit_log, leaderboard_invalidate, queue_audit, queue_leaderboard,
}
use foosball_api.Matches.Entity.{AuditLog, Match, is_confirmed, status_text}
use foosball_api.Matches.Dto.{AdminOverrideResultDto}
use foosball_api.Matches.Orm.{Orm}
use foosball_api.Matches.World.{World, transaction}
use foosball_api.Matches.World as Repo

pub record AdminOverrideResult : Type 0 where
  pub match : Match
  pub audit_log : AuditLog

-- the row that `overrideResult` saves
abbrev pub override_log : ℕ → ℕ → Match → AdminOverrideResultDto → AuditLog
override_log m actor e dto = record {
  actor_id = some actor;
  action = "result_override";
  entity_type = "match";
  entity_id = m;
  before_data = scores e.score_a e.score_b;
  after_data = scores (some dto.score_a) (some dto.score_b);
  reason = dto.reason;
}

-- the row that `deleteMatch` saves for a confirmed match
abbrev pub delete_log : ℕ → ℕ → Match → AuditLog
delete_log m actor e = record {
  actor_id = some actor;
  action = "match_delete";
  entity_type = "match";
  entity_id = m;
  before_data = scores_status e.score_a e.score_b (status_text e.status);
  after_data = no_fields;
  reason = some "Admin deleted confirmed match";
}

abbrev pub overridden : Match → AdminOverrideResultDto → Match
overridden e dto = record e {
  row = record (e.row) { score_a = some dto.score_a; score_b = some dto.score_b };
}

abbrev pub audit_payload : ℕ → ℕ → Match → AdminOverrideResultDto → AuditLogPayload
audit_payload m actor e dto = record {
  entity_type = "match";
  entity_id = m;
  action = "result_override";
  actor_id = actor;
  before_data = scores e.score_a e.score_b;
  after_data = scores (some dto.score_a) (some dto.score_b);
  reason = dto.reason;
}

abbrev pub audit_event : ℕ → ℕ → ℕ → Match → AdminOverrideResultDto → EventEnvelope Payload
audit_event now m actor e dto = record {
  event_type = "audit-log-write";
  version = 1;
  occurred_at = now;
  payload = audit_log (audit_payload m actor e dto);
}

abbrev pub invalidate_event : ℕ → EventEnvelope Payload
invalidate_event now = record {
  event_type = "leaderboard-invalidate";
  version = 1;
  occurred_at = now;
  payload = leaderboard_invalidate (record {
    reason = "admin.result_override";
    affected_filters = week ∷ month ∷ year ∷ total ∷ [];
  });
}

-- `catch (err) { throw new InternalServerErrorException(...) }`
abbrev pub or_write_failed : {A : Type 0} → Result A × World → Result A × World
or_write_failed (ok x, w) = (ok x, w)
or_write_failed (err _, w) = (err (internal audit_log_write_failed), w)

module _ (o : Orm) where
  -- the body of the transaction
  unfoldable pub override_writes :
      ℕ → ℕ → ℕ → Match → AdminOverrideResultDto → Action World (Unit {0})
  override_writes now m actor e dto = do
    Repo.save o (overridden e dto)
    Repo.save_audit_log o (override_log m actor e dto)
    Repo.publish o queue_audit "audit-log-write" (audit_event now m actor e dto)
    Repo.publish o queue_leaderboard "leaderboard-invalidate" (invalidate_event now)
    Repo.commit o

  -- the players are read inside the `try`, after the commit, where reads do not fail here
  unfoldable pub override_result :
      ℕ → ℕ → ℕ → Bool → AdminOverrideResultDto → Action World AdminOverrideResult
  override_result now m actor is_admin dto = do
    throw_if (not is_admin) (forbidden forbidden_admin_required)
    found ← gets (Repo.find_by_id m)
    e ← or_throw found (not_found match_not_found)
    throw_if (not (is_confirmed e.status)) (conflict match_not_confirmed)
    (λ w. or_write_failed (transaction (override_writes now m actor e dto) w))
    players ← gets (Repo.find_players m)
    pure (record {
      match = record (overridden e dto) { players = some players };
      audit_log = override_log m actor e dto;
    })

  unfoldable pub delete_match : ℕ → ℕ → Bool → Action World (Unit {0})
  delete_match m actor is_admin = do
    throw_if (not is_admin) (forbidden forbidden_admin_required)
    found ← gets (Repo.find_by_id m)
    e ← or_throw found (not_found match_not_found)
    when (is_confirmed e.status) (Repo.save_audit_log o (delete_log m actor e))
    Repo.delete o m

unfoldable pub get_audit_log : ℕ → Bool → Action World (List AuditLog)
get_audit_log m is_admin = do
  throw_if (not is_admin) (forbidden forbidden_admin_required)
  found ← gets (Repo.find_by_id m)
  e ← or_throw found (not_found match_not_found)
  gets (Repo.find_audit_logs m)
