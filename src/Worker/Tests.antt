-- ===== src/Worker/Tests.antt =====
-- The theorems on the processors at concrete jobs.
use foosball_api.Prelude.{◌+◌, ◌≡◌, refl, true, List, [], ◌∷◌, count}
use foosball_api.Events.{Job}
use foosball_api.Matches.World.{World}
use foosball_api.Matches.AdminOverride.{override_result, override_writes}
use foosball_api.Matches.AdminOverride.Atomic.{audit_job, invalidate_job}
use foosball_api.Matches.Tests.Memory.{reliable, reliable_laws}
use foosball_api.Matches.Tests.Story.{confirmed_row, confirmed_world, correction}
use foosball_api.Worker.{process_audit_log, process_audit, consume_audit}
use foosball_api.Worker.Audit.{override_is_logged_twice}

abbrev overridden : World
overridden = (override_result reliable 80 1 7 true correction confirmed_world).1

abbrev published : List Job
published = audit_job 80 1 7 confirmed_row confirmed_world correction ∷ invalidate_job 80 ∷ []

abbrev logged : World
logged = (consume_audit reliable published overridden).1

override_is_logged_twice_example :
    count (λ _. true) (logged.db.find_audit_logs 1)
    ≡ 2 + count (λ _. true) (confirmed_world.db.find_audit_logs 1)
unfolding override_result override_writes process_audit_log process_audit consume_audit
override_is_logged_twice_example =
    override_is_logged_twice reliable_laws 80 1 7 correction (λ _. true) confirmed_row
      confirmed_world published refl refl refl refl refl refl refl
