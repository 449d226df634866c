-- ===== src/Matches/Tests/Trail.antt =====
-- A confirmed match through a player's update and an administrator's override.
use text.Mathlib.Text.{◌==◌ as str_eq}
use foosball_api.Prelude.{ℕ, ◌≤◌, Bool, count, refl, true, none, some, List, [], ◌∷◌}
use foosball_api.Matches.Entity.{AuditLog}
use foosball_api.Matches.Dto.{submit_valid, add_players_valid}
use foosball_api.Matches.MatchService
use foosball_api.Matches.Confirmation.{
  confirm, pre_check, locked_vote, cast_vote, publish_confirmed,
}
use foosball_api.Matches.Requests.{
  Caller, Request, update_match, admin_override_result, handle, serve,
}
use foosball_api.Matches.World.{World}
use foosball_api.Matches.Invariant.History.{serve-IsConsistent}
use foosball_api.Matches.Trail.Entries.{Accounted}
use foosball_api.Matches.Trail.Confirmed.{confirmed_changes_are_logged}
use foosball_api.Matches.Tests.Memory.{reliable, reliable_laws}
use foosball_api.Matches.Tests.Lifecycle.{start-IsConsistent}
use foosball_api.Matches.Tests.Story.{start, story, caller, confirmed_row, correction}

abbrev played : World
played = serve reliable story start

abbrev corrected : List (ℕ × Caller × Request)
corrected =
    (70, caller 1, update_match 1 (record { score_a = some (some 3); score_b = some none }))
    ∷ (80, record { sub = 7; is_admin = true }, admin_override_result 1 correction)
    ∷ []

abbrev by_override : AuditLog → Bool
by_override l = str_eq l.action "result_override"

confirmed_changes_are_logged_example :
    Accounted 1 confirmed_row played.db (serve reliable corrected played).db
    × (count by_override (played.db.find_audit_logs 1)
        ≤ count by_override ((serve reliable corrected played).db.find_audit_logs 1))
unfolding serve handle confirm pre_check submit_valid MatchService.submit_result add_players_valid
    MatchService.add_players MatchService.create locked_vote cast_vote publish_confirmed
confirmed_changes_are_logged_example =
    confirmed_changes_are_logged reliable_laws 1 1 by_override corrected played
      (serve-IsConsistent reliable_laws story start start-IsConsistent) refl refl refl
