-- ===== src/Matches/Tests/Story.antt =====
-- The theorems on matches at concrete requests and rows.
use foosball_api.Prelude.{
  ℕ, ◌*◌, ◌&&◌, ◌<◌, ◌≤◌, ◌≡◌, ◌≢◌, ◌↔◌, refl, true, false, none, some, List, [], ◌∷◌, ◌==◌, count,
  length, if◌then◌else◌, Option, map,
}
use foosball_api.Matches.Orm.{Tables}
use foosball_api.Http.{ok}
use foosball_api.Events.{announces}
use foosball_api.Matches.Entity.{
  MatchRow, MatchPlayer, MatchConfirmation, one_v_one, awaiting_confirmation, is_confirmed, team_a,
  team_b,
}
use foosball_api.Matches.Dto.{AdminOverrideResultDto}
use foosball_api.Matches.World.{World}
use foosball_api.Matches.Confirmation.{
  calculate_quorum, status_result, confirm_row, locked_vote, confirm, cancel_check, cancel_writes,
}
use foosball_api.Matches.AdminOverride.{override_result}
use foosball_api.Matches.Dto.{submit_valid, add_players_valid}
use foosball_api.Matches.MatchService
use foosball_api.Matches.Confirmation.{pre_check, cast_vote, publish_confirmed}
use foosball_api.Matches.Requests.{
  Caller, Request, create_match, add_players, submit_result, update_match, confirm_result, handle,
  serve,
}
use foosball_api.Matches.Invariant.Defs.{IsConsistent}
use foosball_api.Matches.Invariant.Cancel.{loaded, back_to_playing}
use foosball_api.Matches.Invariant.History.{serve-IsConsistent}
use foosball_api.Matches.Invariant.Immutable.{confirmed_is_immutable}
use foosball_api.Matches.Confirmation.Ends.{ConfirmEnds, confirm_ends}
use foosball_api.Matches.Confirmation.Race.{System, here, next, vote, confirmed_at_most_once}
use foosball_api.Matches.Confirmation.CancelRace.{cancel_race_reopens}
use foosball_api.Matches.Confirmation.Quorum.{quorum_is_majority}
use foosball_api.Matches.AdminOverride.Atomic.{OverrideEnds, override_ends}
use foosball_api.Matches.MatchService.{match_capacity, is_creator, any_slot_taken}
use foosball_api.Matches.MatchService.Capacity.{
  submit_result_ends, StoredOrStarted, add_players_ends,
}
use foosball_api.Matches.AdminOverride.{delete_match, get_audit_log}
use foosball_api.Matches.AdminOverride.Deletion.{IsDeleted, deleted_audit_is_hidden}
use foosball_api.Matches.Entity.{is_locked, draft, two_v_two, playing}
use foosball_api.Matches.Dto.{AddPlayersDto, SubmitResultDto}
use foosball_api.Http.{err, not_found, match_not_found}
use foosball_api.Prelude.{false, ◌++◌}
use foosball_api.Matches.Tests.Memory.{empty, reliable, reliable_laws}

abbrev pub start : World
start = record { db = empty; jobs = [] }

abbrev pub caller : ℕ → Caller
caller u = record { sub = u; is_admin = false }

abbrev pub story : List (ℕ × Caller × Request)
story =
    (10, caller 1, create_match (record { match_type = some one_v_one }))
    ∷ (
      20,
      caller 1,
      add_players 1 (record {
        players =
            record { user_id = 1; team = team_a; slot = 1; position = none }
            ∷ record { user_id = 2; team = team_b; slot = 1; position = none }
            ∷ [];
      }),
    )
    ∷ (30, caller 1, submit_result 1 (record { score_a = 10; score_b = 5 }))
    ∷ (40, caller 1, confirm_result 1)
    ∷ (50, caller 2, confirm_result 1)
    ∷ []

serve-IsConsistent_example : IsConsistent (serve reliable story start).db
serve-IsConsistent_example =
    serve-IsConsistent reliable_laws story start (λ i u. record { row = refl; once = refl })

story_confirms : count (announces 1) (serve reliable story start).jobs ≡ 1
unfolding serve handle confirm pre_check submit_valid MatchService.submit_result add_players_valid
    MatchService.add_players MatchService.create locked_vote cast_vote publish_confirmed
story_confirms = refl

-- match 1 with two players, the first of whom has confirmed
abbrev pub awaiting_row : MatchRow
awaiting_row = record {
  id = 1;
  created_by = some 1;
  match_type = one_v_one;
  status = awaiting_confirmation;
  score_a = some 10;
  score_b = some 5;
  confirmed_at = none;
  locked_at = none;
}

abbrev pub two_players : List MatchPlayer
two_players =
    record { match_id = 1; user_id = 1; team = team_a; slot = 1; position = none }
    ∷ record { match_id = 1; user_id = 2; team = team_b; slot = 1; position = none }
    ∷ []

abbrev first_vote : MatchConfirmation
first_vote = record { match_id = 1; user_id = 1; confirmed_at = 40 }

abbrev holding : MatchRow → World
holding r = record {
  db = record {
    find_row = λ i. if i == 1 then some r else none;
    find_players = λ i. if i == 1 then two_players else [];
    find_confirmations = λ i. if i == 1 then first_vote ∷ [] else [];
    find_confirmation = λ i u. if i == 1 && u == 1 then some first_vote else none;
    find_audit_logs = λ _. [];
    next_id = 2;
  };
  jobs = [];
}

abbrev pub awaiting_world : World
awaiting_world = holding awaiting_row

abbrev pub voted : World
voted = (confirm reliable 50 1 2 awaiting_world).1

confirm_ends_example :
    ConfirmEnds 50 1 awaiting_row awaiting_world (confirm reliable 50 1 2 awaiting_world)
confirm_ends_example =
    confirm_ends reliable_laws 50 1 2 awaiting_row awaiting_world refl refl refl refl

abbrev after_vote : World
after_vote = (locked_vote reliable 50 1 2 two_players awaiting_world).1

abbrev after_vote_system : System
after_vote_system = record { world = after_vote; publishing = confirm_row 50 awaiting_row ∷ [] }

confirmed_at_most_once_example :
    (count (announces 1) after_vote_system.world.jobs ≤ 1)
    × (0 < count (announces 1) after_vote_system.world.jobs
        → (r' : MatchRow) × (after_vote_system.world.db.find_row 1 ≡ some r')
          × (is_confirmed r'.status ≡ true))
unfolding locked_vote cast_vote
confirmed_at_most_once_example =
    confirmed_at_most_once reliable_laws 1 awaiting_world awaiting_row after_vote_system refl refl
      refl (next here (vote 50 2 two_players refl))

abbrev caught : World
caught = (cancel_writes reliable 60 1 1 (loaded awaiting_row 1 awaiting_world) voted).1

cancel_race_reopens_example :
    (cancel_check 1 1 awaiting_world ≡ (ok (loaded awaiting_row 1 awaiting_world), awaiting_world))
    × (voted.db.find_row 1 ≡ some (confirm_row 50 awaiting_row))
    × (caught.db.find_row 1 ≡ some (back_to_playing awaiting_row))
    × (caught.db.find_confirmations 1 ≡ [])
    × (0 < count (announces 1) caught.jobs)
unfolding confirm pre_check locked_vote cast_vote publish_confirmed cancel_writes
cancel_race_reopens_example =
    cancel_race_reopens reliable_laws 50 60 1 2 1 awaiting_row awaiting_world voted refl refl refl
      refl refl refl refl refl

abbrev pub confirmed_row : MatchRow
confirmed_row = confirm_row 50 awaiting_row

abbrev pub confirmed_world : World
confirmed_world = holding confirmed_row

confirmed_is_immutable_example :
    handle reliable 70
      (caller 1)
      (update_match 1 (record { score_a = some (some 3); score_b = some none }))
      confirmed_world
    ≡ confirmed_world
confirmed_is_immutable_example =
    confirmed_is_immutable reliable 70 1 (caller 1)
      (update_match 1 (record { score_a = some (some 3); score_b = some none })) confirmed_world
      refl refl refl refl

abbrev pub correction : AdminOverrideResultDto
correction = record { score_a = 9; score_b = 10; reason = some "scores were swapped" }

override_ends_example :
    OverrideEnds 80 1 7 correction
      (λ _. true)
      confirmed_row
      confirmed_world
      (override_result reliable 80 1 7 true correction confirmed_world)
override_ends_example =
    override_ends reliable_laws 80 1 7 correction (λ _. true) confirmed_row confirmed_world refl
      refl refl

quorum_is_majority_example :
    (((status_result 1 two_players (first_vote ∷ [])).quorum_reached ≡ true) ↔ (2 < 2 * 1))
    × (1 ≤ calculate_quorum 2)
    × (length two_players ≢ 0 → calculate_quorum 2 ≤ 2)
quorum_is_majority_example = quorum_is_majority 1 two_players (first_vote ∷ [])

abbrev playing_row : MatchRow
playing_row = record awaiting_row { status = playing; score_a = none; score_b = none }

abbrev playing_world : World
playing_world = holding playing_row

abbrev score : SubmitResultDto
score = record { score_a = 10; score_b = 5 }

abbrev submitted_world : World
submitted_world = (MatchService.submit_result reliable 30 1 1 score playing_world).1

submit_result_ends_example :
    (is_creator playing_row.created_by 1 ≡ true)
    × (is_locked playing_row.status ≡ false)
    × (match_capacity playing_row.match_type ≤ length (submitted_world.db.find_players 1))
    × (submitted_world.db.find_row 1 ≡ some awaiting_row)
    × (submitted_world.db.find_players 1 ≡ playing_world.db.find_players 1)
unfolding MatchService.submit_result
submit_result_ends_example =
    submit_result_ends reliable_laws 30 1 1 score playing_row playing_world refl refl refl

-- a draft of two on two with two players, and two more
abbrev draft_row : MatchRow
draft_row = record playing_row { status = draft; match_type = two_v_two }

abbrev two_more : AddPlayersDto
two_more = record {
  players =
      record { user_id = 3; team = team_a; slot = 2; position = none }
      ∷ record { user_id = 4; team = team_b; slot = 2; position = none }
      ∷ [];
}

abbrev four_players : List MatchPlayer
four_players =
    two_players
    ++ record { match_id = 1; user_id = 3; team = team_a; slot = 2; position = none }
      ∷ record { match_id = 1; user_id = 4; team = team_b; slot = 2; position = none }
      ∷ []

abbrev with_two_more : Option Tables
with_two_more =
    reliable.save_players (map (MatchService.to_player 1) two_more.players) (holding draft_row).db

abbrev two_more_added : World
two_more_added = (MatchService.add_players reliable 1 1 two_more (holding draft_row)).1

add_players_ends_example :
    (is_creator draft_row.created_by 1 ≡ true)
    × (is_locked draft_row.status ≡ false)
    × (any_slot_taken two_more.players two_players ≡ false)
    × (d : Tables) × (with_two_more ≡ some d)
    × (some four_players ≡ some (d.find_players 1))
    × (length (d.find_players 1) ≤ match_capacity draft_row.match_type)
    × StoredOrStarted reliable 1 draft_row (holding draft_row) d two_more_added.db
unfolding MatchService.add_players
add_players_ends_example =
    add_players_ends reliable_laws 1 1 two_more draft_row (holding draft_row) refl refl

abbrev deleted_world : World
deleted_world = (delete_match reliable 1 7 true confirmed_world).1

deleted_audit_is_hidden_example :
    IsDeleted 1 deleted_world.db
    × (count (λ _. true) (deleted_world.db.find_audit_logs 1) ≡ 1)
    × (get_audit_log 1 true deleted_world ≡ (err (not_found match_not_found), deleted_world))
unfolding delete_match
deleted_audit_is_hidden_example =
    deleted_audit_is_hidden reliable_laws 1 7 (λ _. true) confirmed_row confirmed_world refl refl
      refl
