-- ===== src/Matches/Tests/Lifecycle.antt =====
-- The theorems on the state machine of a match, at the story of a match that gets confirmed.
use foosball_api.Prelude.{◌≡◌, refl, true, any}
use foosball_api.Matches.Dto.{submit_valid, add_players_valid}
use foosball_api.Matches.MatchService
use foosball_api.Matches.MatchService.{match_capacity, any_slot_taken}
use foosball_api.Matches.Confirmation.{
  pre_check, confirm, locked_vote, cast_vote, publish_confirmed,
}
use foosball_api.Matches.Requests.{handle, serve}
use foosball_api.Matches.Invariant.Defs.{IsConsistent}
use foosball_api.Matches.Lifecycle.{stage_of, Moves}
use foosball_api.Matches.Lifecycle.History.{serve-Moves}
use foosball_api.Matches.Lifecycle.Voted.{is_vote, confirmed_by_vote}
use foosball_api.Matches.Tests.Memory.{reliable, reliable_laws}
use foosball_api.Matches.Tests.Story.{start, story}

pub start-IsConsistent : IsConsistent start.db
start-IsConsistent i u = record { row = refl; once = refl }

serve-Moves_example :
    Moves 1 story
      (stage_of (start.db.find_row 1))
      (stage_of ((serve reliable story start).db.find_row 1))
serve-Moves_example = serve-Moves reliable_laws 1 story start start-IsConsistent

confirmed_by_vote_example : any (is_vote 1) story ≡ true
unfolding serve handle confirm pre_check submit_valid MatchService.submit_result add_players_valid
    MatchService.add_players MatchService.create locked_vote cast_vote publish_confirmed
confirmed_by_vote_example =
    confirmed_by_vote reliable_laws 1 story start start-IsConsistent refl refl
