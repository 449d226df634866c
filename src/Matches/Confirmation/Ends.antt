-- ===== src/Matches/Confirmation/Ends.antt =====
-- What a whole call of `confirm` does, once its checks have passed.
use mathlib.Core.Path.{subst}
use foosball_api.Prelude.{
  ℕ, ◌≡◌, ◌⊎◌, sym, true, some, List, [], ◌∷◌, ◌++◌, inl, inr, arith, Bool-cases, if◌then◌else◌,
}
use foosball_api.Http.{Result, ok, err, error}
use foosball_api.Action.{Action, pure, ◌>>=◌, ◌>>◌, bind-ok, bind-err}
use foosball_api.Events.{Job, queue_matches, queue_leaderboard}
use foosball_api.Matches.Entity.{MatchRow, MatchPlayer, is_awaiting}
use foosball_api.Matches.Orm.{Orm, OrmLaws}
use foosball_api.Matches.World.{World}
use foosball_api.Matches.Confirmation.{
  Vote, ConfirmationStatusResult, status_result, is_player, pre_check, confirm_row, locked_vote,
  confirmed_event, invalidate_event, publish_confirmed, publish_newly, confirm,
}
use foosball_api.Matches.Confirmation.Outcome.{VoteEnds, locked_vote-VoteEnds}

abbrev pub confirmed_job : ℕ → ℕ → MatchRow → Job
confirmed_job now m r = record {
  queue = queue_matches;
  name = "match.confirmed";
  envelope = confirmed_event now m r;
}

abbrev pub invalidate_job : ℕ → Job
invalidate_job now = record {
  queue = queue_leaderboard;
  name = "leaderboard-invalidate";
  envelope = invalidate_event now;
}

-- How `confirm` ends on the awaiting row `r`. It returns the status of the stored confirmations:
-- if that is a quorum, the row is confirmed and both events are published, otherwise neither. Or
-- it throws: nothing has changed, or the row is confirmed and an event was not accepted.
abbrev pub ConfirmEnds : ℕ → ℕ → MatchRow → World → Result ConfirmationStatusResult × World → Type 0
ConfirmEnds now m r w (ok answer, w') =
    (answer ≡ status_result m (w.db.find_players m) (w'.db.find_confirmations m))
    × (w'.db.find_row m ≡ some (if answer.quorum_reached then confirm_row now r else r))
    × (w'.jobs ≡ (
        if answer.quorum_reached
        then (w.jobs ++ confirmed_job now m (confirm_row now r) ∷ []) ++ invalidate_job now ∷ []
        else w.jobs))
ConfirmEnds now m r w (err e, w') =
    (w' ≡ w)
    ⊎ ((w'.db.find_row m ≡ some (confirm_row now r))
        × ((w'.jobs ≡ w.jobs) ⊎ (w'.jobs ≡ w.jobs ++ confirmed_job now m (confirm_row now r) ∷ [])))

abbrev pub answer_vote : Orm → ℕ → ℕ → Vote → Action World ConfirmationStatusResult
answer_vote o now m vote = publish_newly o now m vote.newly_confirmed >> pure vote.answer

-- Both events are published, the first is not accepted, or only the second is not.
publish_confirmed-cases :
    (o : Orm) (now m : ℕ) (r : MatchRow) (w : World)
    → let first = w.jobs ++ confirmed_job now m r ∷ [] in
      (publish_confirmed o now m r w
        ≡ (ok tt, record w { jobs = first ++ invalidate_job now ∷ [] }))
      ⊎ (publish_confirmed o now m r w ≡ (err error, w))
      ⊎ (publish_confirmed o now m r w ≡ (err error, record w { jobs = first }))
unfolding publish_confirmed
publish_confirmed-cases o now m r w = elim (Bool-cases (o.accepts w.jobs (confirmed_job now m r))) [
  | inr refused ↦ inr (inl (ground arith))
  | inl accepted ↦
      elim (Bool-cases (o.accepts (w.jobs ++ confirmed_job now m r ∷ []) (invalidate_job now))) [
        | inl both ↦ inl (ground arith)
        | inr one ↦ inr (inr (ground arith))
      ]
]

answer_vote-ends :
    (o : Orm) (now m : ℕ) (r : MatchRow) (w w' : World) (v : Vote)
    → VoteEnds now m (w.db.find_players m) r w (ok v, w')
    → ConfirmEnds now m r w (answer_vote o now m v w')
answer_vote-ends o now m r w w' v h = elim (Bool-cases v.answer.quorum_reached) [
  | inl reached ↦
      let sending = publish_confirmed o now m (confirm_row now r) in
      let answer = λ (_ : Unit {0}). pure {S = World} v.answer in
      let newly : v.newly_confirmed ≡ some (confirm_row now r) = ground (arith, h) in
      rw newly (elim (publish_confirmed-cases o now m (confirm_row now r) w') [
        | inl both ↦
            subst (ConfirmEnds now m r w) (sym (bind-ok sending answer w' both)) (ground arith)
        | inr (inl none_sent) ↦
            subst (ConfirmEnds now m r w) (sym (bind-err sending answer w' none_sent))
              (ground arith)
        | inr (inr one_sent) ↦
            subst (ConfirmEnds now m r w) (sym (bind-err sending answer w' one_sent)) (ground arith)
      ])
  | inr short ↦ ground arith
]

vote-ends :
    (o : Orm) (now m : ℕ) (r : MatchRow) (w : World) (x : Result Vote × World)
    → VoteEnds now m (w.db.find_players m) r w x
    → ConfirmEnds now m r w (((λ (_ : World). x) >>= answer_vote o now m) w)
vote-ends o now m r w (ok v, w') h = answer_vote-ends o now m r w w' v h
vote-ends o now m r w (err e, w') h = inl h

pub pre_check-passes :
    (m user : ℕ) (r : MatchRow) (w : World)
    → w.db.find_row m ≡ some r
    → is_awaiting r.status ≡ true
    → is_player user (w.db.find_players m) ≡ true
    → pre_check m user w ≡ (ok (w.db.find_players m), w)
unfolding pre_check
pre_check-passes m user r w found awaiting player = ground arith

-- A player's confirmation of a match that awaits it ends in one of these ways. It returns the
-- status of the stored confirmations, with the row confirmed and both events published if they
-- are a quorum, the row as it was and nothing published if not. Or it throws, and either nothing
-- has changed, or the row is confirmed and `match.confirmed` or the invalidation after
-- it was not published.
pub confirm_ends :
    {o : Orm} (laws : OrmLaws o) (now m user : ℕ) (r : MatchRow) (w : World)
    → w.db.find_row m ≡ some r
    → r.id ≡ m
    → is_awaiting r.status ≡ true
    → is_player user (w.db.find_players m) ≡ true
    → ConfirmEnds now m r w (confirm o now m user w)
unfolding confirm
confirm_ends {o} laws now m user r w found keyed awaiting player =
    let players = w.db.find_players m in
    let rest = λ (ps : List MatchPlayer). locked_vote o now m user ps >>= answer_vote o now m in
    let same =
      bind-ok (pre_check m user) rest w (pre_check-passes m user r w found awaiting player) in
    subst (ConfirmEnds now m r w) (sym same) (
      vote-ends o now m r w (locked_vote o now m user players w)
        (locked_vote-VoteEnds laws m now user players r w found keyed awaiting))
