-- ===== src/Matches/Invariant/Cancel.antt =====
-- `cancel` keeps the invariant, when no other request runs in between.
use mathlib.Core.Path.{subst}
use foosball_api.Prelude.{
  ℕ, ◌≡◌, ◌⊎◌, sym, [], true, false, some, inl, inr, arith, Option-cases, Bool-cases,
}
use foosball_api.Http.{
  Exception, err, ok, match_not_found, match_already_confirmed, match_not_awaiting_confirmation,
  forbidden_not_creator, forbidden, not_found, conflict,
}
use foosball_api.Action.{bind-ok, bind-err}
use foosball_api.Matches.Entity.{MatchRow, Match, playing, is_awaiting, is_confirmed}
use foosball_api.Matches.MatchService.{is_creator}
use foosball_api.Matches.Orm.{Tables, Orm, OrmLaws}
use foosball_api.Matches.Orm.At.{save_loaded_at, delete_confirmations_at}
use foosball_api.Matches.World.{World}
use foosball_api.Matches.Confirmation.{cancel_check, cancel_writes, cancel}
use foosball_api.Matches.Invariant.Defs.{IsConsistent}
use foosball_api.Matches.Invariant.Outcomes.{written, then_written, guarded_write}

abbrev pub loaded : MatchRow → ℕ → World → Match
loaded r m w = record { row = r; players = some (w.db.find_players m) }

-- The checks of `cancel` refuse, or return the match, which awaits confirmation and is the
-- caller's; they change nothing.
pub cancel_check-cases :
    (m user : ℕ) (w : World)
    → ((e : Exception) × (cancel_check m user w ≡ (err e, w)))
      ⊎ ((r : MatchRow) × (w.db.find_row m ≡ some r)
          × (is_awaiting r.status ≡ true)
          × (is_creator r.created_by user ≡ true)
          × (cancel_check m user w ≡ (ok (loaded r m w), w)))
unfolding cancel_check
cancel_check-cases m user w = elim (Option-cases (w.db.find_row m)) [
  | inl absent ↦ inl (not_found match_not_found, ground arith)
  | inr (r, found) ↦ elim (Bool-cases (is_confirmed r.status)) [
    | inl done ↦ inl (conflict match_already_confirmed, ground arith)
    | inr open_yet ↦ elim (Bool-cases (is_awaiting r.status)) [
      | inr other ↦ inl (conflict match_not_awaiting_confirmation, ground arith)
      | inl awaiting ↦ elim (Bool-cases (is_creator r.created_by user)) [
        | inr stranger ↦ inl (forbidden forbidden_not_creator, ground arith)
        | inl creator ↦ inr (r, found, awaiting, creator, ground arith)
      ]
    ]
  ]
]

abbrev pub back_to_playing : MatchRow → MatchRow
back_to_playing r = record r { status = playing }

module _ {o : Orm} (laws : OrmLaws o) (now m user : ℕ) where
  delete_confirmations-IsConsistent :
      {r : MatchRow} (d d' : Tables)
      → d.find_row m ≡ some r
      → is_awaiting r.status ≡ true
      → o.delete_confirmations m d ≡ some d'
      → IsConsistent d
      → IsConsistent d'
  delete_confirmations-IsConsistent d d' found awaiting deleted h i u =
      ground (arith, h i u, delete_confirmations_at laws d i u m)

  playing_again-IsConsistent :
      (r : MatchRow) (d : Tables)
      → d.find_row m ≡ some r
      → d.find_confirmations m ≡ []
      → IsConsistent d
      → IsConsistent (written (o.save_match (back_to_playing r) (some (d.find_players m)) d) d)
  playing_again-IsConsistent r d found purged h i u =
      ground (arith, h i u, h m u, save_loaded_at laws d i u (back_to_playing r))

  pub cancel_writes-db :
      (r : MatchRow) (w : World)
      → (cancel_writes o now m user (loaded r m w) w).1.db
        ≡ then_written
            (o.delete_confirmations m w.db)
            w.db
            (λ d. written (o.save_match (back_to_playing r) (some (w.db.find_players m)) d) d)
  unfolding cancel_writes
  cancel_writes-db r w = ground arith

  cancel_writes-IsConsistent :
      (r : MatchRow) (w : World)
      → w.db.find_row m ≡ some r
      → is_awaiting r.status ≡ true
      → IsConsistent w.db
      → IsConsistent (cancel_writes o now m user (loaded r m w) w).1.db
  cancel_writes-IsConsistent r w found awaiting h = rw (cancel_writes-db r w) (
      guarded_write IsConsistent false (o.delete_confirmations m w.db) w.db
        (λ d. written (o.save_match (back_to_playing r) (some (w.db.find_players m)) d) d) h
        λ _ d deleted.
          let s = laws.delete_confirmations m w.db d deleted in
          let kept : d.find_row m ≡ some r = rw (s.rows m) found in
          let purged : d.find_confirmations m ≡ [] = ground (arith, s.confirmations m) in
          rw (← s.players m) (
            playing_again-IsConsistent r d kept purged
              (delete_confirmations-IsConsistent w.db d found awaiting deleted h)))

  pub cancel-IsConsistent :
      (w : World) → IsConsistent w.db → IsConsistent (cancel o now m user w).1.db
  unfolding cancel
  cancel-IsConsistent w h = elim (cancel_check-cases m user w) [
    | inl (e, refused) ↦
        let same = bind-err (cancel_check m user) (cancel_writes o now m user) w refused in
        subst (λ x. IsConsistent x.1.db) (sym same) h
    | inr (r, found, awaiting, _, passed) ↦
        let same = bind-ok (cancel_check m user) (cancel_writes o now m user) w passed in
        subst (λ x. IsConsistent x.1.db) (sym same)
          (cancel_writes-IsConsistent r w found awaiting h)
  ]
