-- ===== src/Matches/Confirmation/CancelRace.antt =====
-- `cancel` holds no lock between its checks and its writes: a quorum that is reached in between
-- is undone.
use foosball_api.Prelude.{
  ℕ, ◌<◌, ◌≡◌, true, some, [], ◌∷◌, ◌++◌, inl, inr, arith, Option-cases, count, count-append,
}
use foosball_api.Http.{ok}
use foosball_api.Events.{Job, announces, match_cancelled, queue_matches}
use foosball_api.Matches.Entity.{MatchRow, is_awaiting}
use foosball_api.Matches.MatchService.{is_creator}
use foosball_api.Matches.Orm.{Orm, OrmLaws}
use foosball_api.Matches.Orm.At.{save_at, delete_confirmations_at}
use foosball_api.Matches.World.{World}
use foosball_api.Matches.Confirmation.{
  ConfirmationStatusResult, is_player, confirm_row, confirm, cancel_check, cancel_writes,
}
use foosball_api.Matches.Confirmation.Ends.{confirm_ends, confirmed_job, invalidate_job}
use foosball_api.Matches.Invariant.Cancel.{loaded, back_to_playing}

abbrev cancelled_job : ℕ → ℕ → ℕ → Job
cancelled_job now m user = record {
  queue = queue_matches;
  name = "match.confirmation_cancelled";
  envelope = record {
    event_type = "match.confirmation_cancelled";
    version = 1;
    occurred_at = now;
    payload = match_cancelled (record { match_id = m; cancelled_by = user });
  };
}

-- What the writes of `cancel` leave, whatever has happened since its checks.
cancel_writes-leaves :
    {o : Orm} (laws : OrmLaws o) (now m user : ℕ) (r : MatchRow) (w w' : World)
    {answer : ConfirmationStatusResult}
    → r.id ≡ m
    → (cancel_writes o now m user (loaded r m w) w').0 ≡ ok answer
    → let w'' = (cancel_writes o now m user (loaded r m w) w').1 in
      (w''.db.find_row m ≡ some (back_to_playing r))
      × (w''.db.find_confirmations m ≡ [])
      × (w''.jobs ≡ w'.jobs ++ cancelled_job now m user ∷ [])
unfolding cancel_writes
cancel_writes-leaves {o} laws now m user r w w' keyed done =
    elim (Option-cases (o.delete_confirmations m w'.db)) [
      | inl failed ↦ ground arith
      | inr (d, deleted) ↦ ground (
        arith,
        delete_confirmations_at laws w'.db m user m,
        save_at laws d m user (back_to_playing r) (some (w.db.find_players m)),
      )
    ]

count-three :
    (m now now' user : ℕ) (r : MatchRow) (w : World)
    → count (announces m) w.jobs
      < count (announces m) (
          ((w.jobs ++ confirmed_job now m (confirm_row now r) ∷ []) ++ invalidate_job now ∷ [])
          ++ cancelled_job now' m user ∷ [])
count-three m now now' user r w = ground (
  arith,
  count-append (announces m) w.jobs (confirmed_job now m (confirm_row now r) ∷ []),
  count-append (announces m) (w.jobs ++ confirmed_job now m (confirm_row now r) ∷ [])
      (invalidate_job now ∷ []),
  count-append (announces m)
      ((w.jobs ++ confirmed_job now m (confirm_row now r) ∷ []) ++ invalidate_job now ∷ [])
      (cancelled_job now' m user ∷ []),
)

-- If the creator's `cancel` makes its checks while the match awaits confirmation, another
-- request then confirms the match by a quorum, and the writes of `cancel` follow and succeed,
-- the match is `playing` again as the cancel had read it, with its confirmations gone, although
-- `match.confirmed` was published.
pub cancel_race_reopens :
    {o : Orm} (laws : OrmLaws o) (now now' m user creator : ℕ) (r : MatchRow) (w w' : World)
    {answer cancelled_answer : ConfirmationStatusResult}
    → w.db.find_row m ≡ some r
    → r.id ≡ m
    → is_awaiting r.status ≡ true
    → is_creator r.created_by creator ≡ true
    → is_player user (w.db.find_players m) ≡ true
    → confirm o now m user w ≡ (ok answer, w')
    → answer.quorum_reached ≡ true
    → (cancel_writes o now' m creator (loaded r m w) w').0 ≡ ok cancelled_answer
    → let w'' = (cancel_writes o now' m creator (loaded r m w) w').1 in
      (cancel_check m creator w ≡ (ok (loaded r m w), w))
      × (w'.db.find_row m ≡ some (confirm_row now r))
      × (w''.db.find_row m ≡ some (back_to_playing r))
      × (w''.db.find_confirmations m ≡ [])
      × (count (announces m) w.jobs < count (announces m) w''.jobs)
unfolding cancel_check
cancel_race_reopens laws now now' m user creator r w w' found keyed awaiting own player sent reached
      done =
    let ends = rw sent at (confirm_ends laws now m user r w found keyed awaiting player) in
    let left = cancel_writes-leaves laws now' m creator r w w' keyed done in
    (
      ground arith,
      ground (arith, ends),
      left.0,
      left.1,
      rw left.2 (ground (arith, ends, count-three m now now' creator r w)),
    )
