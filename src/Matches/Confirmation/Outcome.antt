-- ===== src/Matches/Confirmation/Outcome.antt =====
-- What the locked transaction of `confirm` does.
use foosball_api.Prelude.{
  ℕ, ◌≡◌, refl, true, none, some, List, inl, inr, arith, Option-cases, if◌then◌else◌,
}
use foosball_api.Http.{Result, ok, err}
use foosball_api.Matches.Entity.{MatchRow, MatchPlayer, is_awaiting, is_confirmed}
use foosball_api.Matches.Orm.{Orm, OrmLaws}
use foosball_api.Matches.Orm.At.{save_unloaded_at, save_confirmation_at}
use foosball_api.Matches.World.{World, transaction}
use foosball_api.Matches.Confirmation.{Vote, status_result, confirm_row, cast_vote, locked_vote}

-- How a vote on the awaiting row `r` ends: it fails and nothing has changed, or it has confirmed
-- the row exactly if the stored confirmations are a quorum.
abbrev pub VoteEnds : ℕ → ℕ → List MatchPlayer → MatchRow → World → Result Vote × World → Type 0
VoteEnds now m players r w (err _, w') = w' ≡ w
VoteEnds now m players r w (ok v, w') =
    (w'.jobs ≡ w.jobs)
    × (v.answer ≡ status_result m players (w'.db.find_confirmations m))
    × (w'.db.find_row m ≡ some (if v.answer.quorum_reached then confirm_row now r else r))
    × (v.newly_confirmed ≡ (if v.answer.quorum_reached then some (confirm_row now r) else none))

module _ {o : Orm} (laws : OrmLaws o) (now m user : ℕ) (players : List MatchPlayer) where
  pub cast_vote-VoteEnds :
      (r : MatchRow) (w : World)
      → w.db.find_row m ≡ some r
      → r.id ≡ m
      → VoteEnds now m players r w (transaction (cast_vote o now m user players r) w)
  unfolding cast_vote
  cast_vote-VoteEnds r w found keyed = elim (Option-cases (w.db.find_confirmation m user)) [
    | inr (c, old) ↦ ground (arith, save_unloaded_at laws w.db m user (confirm_row now r))
    | inl new ↦ elim (Option-cases (o.save_confirmation m user now w.db)) [
      | inl failed ↦ ground arith
      | inr (d, saved) ↦ ground (
        arith,
        save_confirmation_at laws w.db m user m user now new,
        save_unloaded_at laws d m user (confirm_row now r),
      )
    ]
  ]

module _ {o : Orm} (laws : OrmLaws o) (m : ℕ) where
  -- on an awaiting row the transaction is the vote
  pub locked_vote-awaiting :
      (now user : ℕ) (players : List MatchPlayer) (r : MatchRow) (w : World)
      → w.db.find_row m ≡ some r
      → is_awaiting r.status ≡ true
      → locked_vote o now m user players w ≡ transaction (cast_vote o now m user players r) w
  unfolding locked_vote
  locked_vote-awaiting now user players r w found awaiting = rw (found, locked_vote) (rw awaiting)

  pub locked_vote-VoteEnds :
      (now user : ℕ) (players : List MatchPlayer) (r : MatchRow) (w : World)
      → w.db.find_row m ≡ some r
      → r.id ≡ m
      → is_awaiting r.status ≡ true
      → VoteEnds now m players r w (locked_vote o now m user players w)
  locked_vote-VoteEnds now user players r w found keyed awaiting =
      rw (locked_vote-awaiting now user players r w found awaiting)
        (cast_vote-VoteEnds laws now m user players r w found keyed)

  -- a vote on a confirmed row changes nothing
  pub locked_vote-confirmed :
      (now user : ℕ) (players : List MatchPlayer) {r : MatchRow} (w : World)
      → w.db.find_row m ≡ some r
      → is_confirmed r.status ≡ true
      → (v : Vote) × (locked_vote o now m user players w ≡ (ok v, w)) × (v.newly_confirmed ≡ none)
  unfolding locked_vote
  locked_vote-confirmed now user players {r} w found done = (
    record { newly_confirmed = none; answer = status_result m players (w.db.find_confirmations m) },
    ground arith,
    refl,
  )
