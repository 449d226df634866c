-- ===== src/Matches/Confirmation.antt =====
-- services/confirmation.service.ts: players' votes on a result, the quorum and the cancellation.
pub mod Quorum
pub mod Outcome
pub mod Race
pub mod Voting
pub mod Progress
pub mod Ends
pub mod CancelRace
use foosball_api.Prelude.{
  ℕ, ◌+◌, ◌/◌, Bool, false, not, Option, none, some, List, [], ◌∷◌, ltb, leb, ◌==◌, map, length,
  any, get_or, is_some, if◌then◌else◌,
}
use foosball_api.Http.{
  ok, match_not_found, match_not_awaiting_confirmation, not_a_player, match_already_confirmed,
  forbidden_not_creator, forbidden, not_found, conflict,
}
use foosball_api.Action.{Action, pure, gets, or_throw, ◌>>=◌, ◌>>◌, throw_if, when}
use foosball_api.Events.{
  EventEnvelope, Payload, WinnerTeam, winner_a, winner_b, draw, week, month, year, total,
  match_confirmed, match_cancelled, leaderboard_invalidate, queue_matches, queue_leaderboard,
}
use foosball_api.Matches.Entity.{
  playing, confirmed, MatchRow, MatchPlayer, MatchConfirmation, Match, is_awaiting, is_confirmed,
}
use foosball_api.Matches.Orm.{Orm}
use foosball_api.Matches.World.{World, transaction}
use foosball_api.Matches.World as Repo
use foosball_api.Matches.MatchService.{is_creator}

-- `confirmations` keeps the user and the time of each row.
pub record ConfirmationStatusResult : Type 0 where
  pub match_id : ℕ
  pub total_players : ℕ
  pub confirmed_count : ℕ
  pub quorum_required : ℕ
  pub quorum_reached : Bool
  pub confirmations : List (ℕ × ℕ)

unfoldable pub calculate_quorum : ℕ → ℕ
calculate_quorum total_players = total_players / 2 + 1

abbrev pub vote_of : MatchConfirmation → ℕ × ℕ
vote_of c = (c.user_id, c.confirmed_at)

-- the object that `getStatus` and `confirm` return
unfoldable pub status_result :
    ℕ → List MatchPlayer → List MatchConfirmation → ConfirmationStatusResult
unfolding calculate_quorum
status_result m players confirmations =
    let quorum_required = calculate_quorum (length players) in
    record {
      match_id = m;
      total_players = length players;
      confirmed_count = length confirmations;
      quorum_required = quorum_required;
      quorum_reached = leb quorum_required (length confirmations);
      confirmations = map vote_of confirmations;
    }

unfoldable pub winner_team : ℕ → ℕ → WinnerTeam
winner_team score_a score_b =
    if ltb score_b score_a then winner_a else if ltb score_a score_b then winner_b else draw

abbrev pub is_player : ℕ → List MatchPlayer → Bool
is_player u = any (λ p. p.user_id == u)

unfoldable pub get_status : ℕ → Action World ConfirmationStatusResult
unfolding status_result
get_status m = do
  found ← gets (Repo.find_by_id m)
  e ← or_throw found (not_found match_not_found)
  throw_if (not (is_awaiting e.status)) (conflict match_not_awaiting_confirmation)
  players ← gets (Repo.find_players m)
  confirmations ← gets (Repo.find_confirmations m)
  pure (status_result m players confirmations)

-- the checks before the transaction; they return the players that were read
unfoldable pub pre_check : ℕ → ℕ → Action World (List MatchPlayer)
pre_check m user = do
  found ← gets (Repo.find_by_id m)
  e ← or_throw found (not_found match_not_found)
  throw_if (not (is_awaiting e.status)) (conflict match_not_awaiting_confirmation)
  players ← gets (Repo.find_players m)
  throw_if (not (is_player user players)) (forbidden not_a_player)
  pure players

-- the checks of `cancel`; they return the match that was read
unfoldable pub cancel_check : ℕ → ℕ → Action World Match
cancel_check m user = do
  found ← gets (Repo.find_by_id m)
  e ← or_throw found (not_found match_not_found)
  throw_if (is_confirmed e.status) (conflict match_already_confirmed)
  throw_if (not (is_awaiting e.status)) (conflict match_not_awaiting_confirmation)
  throw_if (not (is_creator e.created_by user)) (forbidden forbidden_not_creator)
  pure e

abbrev pub confirm_row : ℕ → MatchRow → MatchRow
confirm_row now r = record r { status = confirmed; confirmed_at = some now; locked_at = some now }

-- The outcome of the locked transaction: the row that this vote confirmed, if any, and the answer.
pub record Vote : Type 0 where
  pub newly_confirmed : Option MatchRow
  pub answer : ConfirmationStatusResult

abbrev pub confirmed_event : ℕ → ℕ → MatchRow → EventEnvelope Payload
confirmed_event now m r =
    let score_a = get_or r.score_a 0 in
    let score_b = get_or r.score_b 0 in
    record {
      event_type = "match.confirmed";
      version = 1;
      occurred_at = now;
      payload = match_confirmed (record {
        match_id = m;
        winner_team = winner_team score_a score_b;
        score_a = score_a;
        score_b = score_b;
        confirmed_at = get_or r.confirmed_at now;
      });
    }

abbrev pub invalidate_event : ℕ → EventEnvelope Payload
invalidate_event now = record {
  event_type = "leaderboard-invalidate";
  version = 1;
  occurred_at = now;
  payload =
      leaderboard_invalidate (record {
        reason = "match.confirmed";
        affected_filters = week ∷ month ∷ year ∷ total ∷ [];
      });
}

module _ (o : Orm) where
  -- the branch where the row is still awaiting confirmation, up to the commit
  unfoldable pub cast_vote : ℕ → ℕ → ℕ → List MatchPlayer → MatchRow → Action World Vote
  unfolding status_result
  cast_vote now m user players r = do
    existing ← gets (λ w. w.db.find_confirmation m user)
    when (not (is_some existing)) (Repo.save_confirmation o now m user)
    all_confirmations ← gets (Repo.find_confirmations m)
    let answer = status_result m players all_confirmations
    let reached = answer.quorum_reached
    let r' = confirm_row now r
    when reached (Repo.save o (record { row = r'; players = none }))
    Repo.commit o
    pure (record { newly_confirmed = if reached then some r' else none; answer = answer })

  -- The transaction: SELECT ... FOR UPDATE of the row, then the vote. Another transaction's
  -- change is answered with the present state.
  unfoldable pub locked_vote : ℕ → ℕ → ℕ → List MatchPlayer → Action World Vote
  unfolding status_result
  locked_vote now m user players w = elim (w.db.find_row m) [
    | none ↦ (
      ok (record {
        newly_confirmed = none;
        answer = status_result m players (w.db.find_confirmations m);
      }),
      w,
    )
    | some r ↦ if is_awaiting r.status then transaction (cast_vote now m user players r) w else (
      ok (record {
        newly_confirmed = none;
        answer = status_result m players (w.db.find_confirmations m);
      }),
      w,
    )
  ]

  -- the events of a quorum, after the commit
  unfoldable pub publish_confirmed : ℕ → ℕ → MatchRow → Action World (Unit {0})
  publish_confirmed now m r = do
    Repo.publish o queue_matches "match.confirmed" (confirmed_event now m r)
    Repo.publish o queue_leaderboard "leaderboard-invalidate" (invalidate_event now)

  abbrev pub publish_newly : ℕ → ℕ → Option MatchRow → Action World (Unit {0})
  publish_newly now m none w = (ok tt, w)
  publish_newly now m (some r) w = publish_confirmed now m r w

  -- A failing publication throws after the commit; the rollback then finds no transaction.
  unfoldable pub confirm : ℕ → ℕ → ℕ → Action World ConfirmationStatusResult
  confirm now m user = do
    players ← pre_check m user
    vote ← locked_vote now m user players
    publish_newly now m vote.newly_confirmed
    pure vote.answer

  -- the writes of `cancel`, which no transaction holds together with its checks
  unfoldable pub cancel_writes : ℕ → ℕ → ℕ → Match → Action World ConfirmationStatusResult
  unfolding calculate_quorum
  cancel_writes now m user e = do
    Repo.delete_all_confirmations o m
    Repo.save o (record e { row = record (e.row) { status = playing } })
    let event : EventEnvelope Payload = record {
      event_type = "match.confirmation_cancelled";
      version = 1;
      occurred_at = now;
      payload = match_cancelled (record { match_id = m; cancelled_by = user });
    }
    Repo.publish o queue_matches "match.confirmation_cancelled" event
    players ← gets (Repo.find_players m)
    pure (record {
      match_id = m;
      total_players = length players;
      confirmed_count = 0;
      quorum_required = calculate_quorum (length players);
      quorum_reached = false;
      confirmations = [];
    })

  unfoldable pub cancel : ℕ → ℕ → ℕ → Action World ConfirmationStatusResult
  cancel now m user = do e ← cancel_check m user; cancel_writes now m user e
