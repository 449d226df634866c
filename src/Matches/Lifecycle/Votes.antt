-- ===== src/Matches/Lifecycle/Votes.antt =====
-- What a vote and a cancellation do to the row of a match.
use mathlib.Core.Path.{subst}
use foosball_api.Prelude.{
  ℕ, ◌≡◌, refl, sym, inl, inr, arith, true, false, none, some, length, leb, Option-cases,
  Bool-cases,
}
use foosball_api.Action.{bind-ok, bind-err}
use foosball_api.Matches.Entity.{
  MatchRow, MatchStatus, playing, awaiting_confirmation, confirmed, is_awaiting,
}
use foosball_api.Matches.Orm.{Tables, Orm, OrmLaws}
use foosball_api.Matches.World.{World}
use foosball_api.Matches.MatchService.{is_creator}
use foosball_api.Matches.Confirmation.{
  calculate_quorum, confirm_row, pre_check, cast_vote, locked_vote, confirm, cancel_check,
  cancel_writes, cancel,
}
use foosball_api.Matches.Invariant.Defs.{IsConsistent}
use foosball_api.Matches.Invariant.Outcomes.{guarded_write, guarded_written, written}
use foosball_api.Matches.Invariant.Votes.{
  transaction-db, pre_check-cases, bind-db, after_vote, cast_vote-db, answer_vote, answer_vote-db,
  vote_and_answer,
}
use foosball_api.Matches.Invariant.Cancel.{
  cancel_check-cases, loaded, back_to_playing, cancel_writes-db,
}
use foosball_api.Matches.Lifecycle.{stage}
use foosball_api.Matches.Lifecycle.Rows.{RowMoves, same_row, saved-RowMoves, row_keyed}

abbrev pub Confirmed : MatchRow → MatchRow → Type 0
Confirmed r r' =
    (r.status ≡ awaiting_confirmation)
    × (stage r' ≡ record { status = confirmed; creator = r.created_by })

abbrev pub Reopened : ℕ → MatchRow → MatchRow → Type 0
Reopened user r r' =
    (r.status ≡ awaiting_confirmation)
    × (is_creator r.created_by user ≡ true)
    × (stage r' ≡ record { status = playing; creator = r.created_by })

awaiting_status : (s : MatchStatus) → is_awaiting s ≡ true → s ≡ awaiting_confirmation
awaiting_status s h = ground arith

module _ {o : Orm} (laws : OrmLaws o) (now m user i : ℕ) (w : World) (h : IsConsistent w.db) where
  after_vote-row :
      (r : MatchRow) (players : ℕ) (d : Tables)
      → is_awaiting r.status ≡ true
      → d.find_row m ≡ some r
      → r.id ≡ m
      → d.find_row i ≡ w.db.find_row i
      → RowMoves Confirmed m i w.db (after_vote o now m r players d)
  after_vote-row r players d awaiting found keyed kept =
      elim (Bool-cases (leb (calculate_quorum players) (length (d.find_confirmations m)))) [
        | inr short ↦ rw short (inl kept)
        | inl reached ↦ rw reached (
            guarded_written (RowMoves Confirmed m i w.db) false
              (o.save_match (confirm_row now r) none d) d (inl kept)
              λ _ d' saved.
                saved-RowMoves laws Confirmed i none w.db d d' found keyed
                  (awaiting_status r.status awaiting, refl) saved kept)
      ]

  cast_vote-row :
      (r : MatchRow)
      → w.db.find_row m ≡ some r
      → is_awaiting r.status ≡ true
      → RowMoves Confirmed m i w.db (cast_vote o now m user (w.db.find_players m) r w).1.db
  cast_vote-row r found awaiting =
      let keyed = row_keyed m h found in
      let players = length (w.db.find_players m) in
      rw (cast_vote-db laws now m user (w.db.find_players m) r w)
        (elim (Option-cases (w.db.find_confirmation m user)) [
          | inr (c, old) ↦ rw old (after_vote-row r players w.db awaiting found keyed refl)
          | inl new ↦ rw new (
              guarded_write (RowMoves Confirmed m i w.db) false
                (o.save_confirmation m user now w.db) w.db (after_vote o now m r players)
                (same_row Confirmed m i w.db)
                λ _ d saved.
                  let s = laws.save_confirmation m user now w.db d saved in
                  let kept : d.find_row m ≡ some r = rw (s.rows m) found in
                  after_vote-row r players d awaiting kept keyed (s.rows i))
        ])

  locked_vote-row :
      RowMoves Confirmed m i w.db (locked_vote o now m user (w.db.find_players m) w).1.db
  unfolding locked_vote
  locked_vote-row = elim (Option-cases (w.db.find_row m)) [
    | inl absent ↦ rw (absent, locked_vote) (same_row Confirmed m i w.db)
    | inr (r, found) ↦
        rw (found, locked_vote)
          (elim (Bool-cases (is_awaiting r.status)) [
            | inr other ↦ rw other (same_row Confirmed m i w.db)
            | inl awaiting ↦ rw awaiting (
                transaction-db (RowMoves Confirmed m i w.db)
                  (cast_vote o now m user (w.db.find_players m) r) w (same_row Confirmed m i w.db)
                  (cast_vote-row r found awaiting))
          ])
  ]

  pub confirm-row : RowMoves Confirmed m i w.db (confirm o now m user w).1.db
  unfolding confirm answer_vote vote_and_answer
  confirm-row = elim (pre_check-cases m user w) [
    | inl (e, refused) ↦
        let same = bind-err (pre_check m user) (vote_and_answer laws now m user) w refused in
        subst (λ x. RowMoves Confirmed m i w.db x.1.db) (sym same) (same_row Confirmed m i w.db)
    | inr passed ↦
        let same = bind-ok (pre_check m user) (vote_and_answer laws now m user) w passed in
        subst (λ x. RowMoves Confirmed m i w.db x.1.db) (sym same)
          (subst (RowMoves Confirmed m i w.db)
            (sym (
              bind-db (locked_vote o now m user (w.db.find_players m)) (answer_vote laws now m user)
                w (answer_vote-db laws now m user)))
            locked_vote-row)
  ]

  cancel_writes-row :
      (r : MatchRow)
      → w.db.find_row m ≡ some r
      → is_awaiting r.status ≡ true
      → is_creator r.created_by user ≡ true
      → RowMoves (Reopened user) m i w.db (cancel_writes o now m user (loaded r m w) w).1.db
  cancel_writes-row r found awaiting creator = rw (cancel_writes-db laws now m user r w) (
      guarded_write (RowMoves (Reopened user) m i w.db) false (o.delete_confirmations m w.db) w.db
        (λ d. written (o.save_match (back_to_playing r) (some (w.db.find_players m)) d) d)
        (same_row (Reopened user) m i w.db)
        λ _ d deleted.
          let s = laws.delete_confirmations m w.db d deleted in
          let kept : d.find_row m ≡ some r = rw (s.rows m) found in
          guarded_written (RowMoves (Reopened user) m i w.db) false
            (o.save_match (back_to_playing r) (some (w.db.find_players m)) d) d (inl (s.rows i))
            λ _ d' saved.
              saved-RowMoves laws (Reopened user) i (some (w.db.find_players m)) w.db d d' kept
                (row_keyed m h found) (awaiting_status r.status awaiting, creator, refl) saved
                (s.rows i))

  pub cancel-row : RowMoves (Reopened user) m i w.db (cancel o now m user w).1.db
  unfolding cancel
  cancel-row = elim (cancel_check-cases m user w) [
    | inl (e, refused) ↦
        let same = bind-err (cancel_check m user) (cancel_writes o now m user) w refused in
        subst (λ x. RowMoves (Reopened user) m i w.db x.1.db) (sym same)
          (same_row (Reopened user) m i w.db)
    | inr (r, found, awaiting, creator, passed) ↦
        let same = bind-ok (cancel_check m user) (cancel_writes o now m user) w passed in
        subst (λ x. RowMoves (Reopened user) m i w.db x.1.db) (sym same)
          (cancel_writes-row r found awaiting creator)
  ]
