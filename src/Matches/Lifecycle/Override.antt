-- ===== src/Matches/Lifecycle/Override.antt =====
-- What an administrator's override and deletion do to the row of a match.
use foosball_api.Prelude.{
  some_eq, sym, ap, ◌∙◌, ℕ, ◌≡◌, refl, inl, inr, arith, Bool, true, false, not, ◌&&◌, some,
  Option-cases, Bool-cases, if◌then◌else◌,
}
use foosball_api.Matches.Entity.{MatchRow, AuditLog, is_confirmed}
use foosball_api.Matches.Dto.{AdminOverrideResultDto}
use foosball_api.Matches.Orm.{Tables, Orm, OrmLaws}
use foosball_api.Matches.World.{World}
use foosball_api.Matches.AdminOverride.{
  override_log, delete_log, override_writes, override_result, delete_match,
}
use foosball_api.Matches.Invariant.Defs.{IsConsistent}
use foosball_api.Matches.Invariant.Outcomes.{guarded_write, guarded_written, written}
use foosball_api.Matches.Invariant.Cancel.{loaded}
use foosball_api.Matches.Invariant.Votes.{transaction-db}
use foosball_api.Matches.Invariant.Override.{
  rescored, override_writes-db, override_result-db, override_result-absent, delete_match-db,
  delete_match-absent,
}
use foosball_api.Matches.Lifecycle.Rows.{
  RowMoves, same_row, saved-RowMoves, deleted-RowRemoved, row_keyed,
}
use foosball_api.Matches.Lifecycle.Service.{Rewritten, Removal, by_admin}

logged_row :
    {o : Orm} (laws : OrmLaws o) (i : ℕ) (logs : Bool) (l : AuditLog) (d d' : Tables)
    → (if logs then o.save_audit_log l d else some d) ≡ some d'
    → d'.find_row i ≡ d.find_row i
logged_row laws i true l d d' e = (laws.save_audit_log l d d' e).rows i
logged_row laws i false l d d' e = ap (λ (t : Tables). t.find_row i) (sym (some_eq e))

module _ {o : Orm} (laws : OrmLaws o) (m actor i : ℕ) (is_admin : Bool) (w : World) where
  override_writes-row :
      (now : ℕ) (dto : AdminOverrideResultDto) (r : MatchRow)
      → w.db.find_row m ≡ some r
      → r.id ≡ m
      → RowMoves Rewritten m i w.db (override_writes o now m actor (loaded r m w) dto w).1.db
  override_writes-row now dto r found keyed = rw (override_writes-db laws now m actor dto r w) (
      guarded_write (RowMoves Rewritten m i w.db) false
        (o.save_match (rescored r dto) (some (w.db.find_players m)) w.db) w.db
        (λ d. written (o.save_audit_log (override_log m actor (loaded r m w) dto) d) d)
        (same_row Rewritten m i w.db)
        λ _ d saved.
          let moved =
            saved-RowMoves laws Rewritten i (some (w.db.find_players m)) w.db w.db d found keyed
              refl saved refl in
          guarded_written (RowMoves Rewritten m i w.db) false
            (o.save_audit_log (override_log m actor (loaded r m w) dto) d) d moved
            λ _ d' logged. rw ((laws.save_audit_log _ d d' logged).rows i) moved)

  pub override_result-row :
      (now : ℕ) (dto : AdminOverrideResultDto)
      → IsConsistent w.db
      → RowMoves Rewritten m i w.db (override_result o now m actor is_admin dto w).1.db
  override_result-row now dto h = elim (Option-cases (w.db.find_row m)) [
    | inl absent ↦
        rw (override_result-absent laws now m actor dto is_admin w absent)
          (same_row Rewritten m i w.db)
    | inr (r, found) ↦
        rw (override_result-db laws now m actor dto is_admin r w found)
          (elim (Bool-cases (is_admin && is_confirmed r.status)) [
            | inl allowed ↦ rw allowed (
                transaction-db (RowMoves Rewritten m i w.db)
                  (override_writes o now m actor (loaded r m w) dto) w (same_row Rewritten m i w.db)
                  (override_writes-row now dto r found (row_keyed m h found)))
            | inr refused ↦ rw refused (same_row Rewritten m i w.db)
          ])
  ]

  pub delete_match-row : Removal is_admin m i w.db (delete_match o m actor is_admin w).1.db
  delete_match-row = elim (Option-cases (w.db.find_row m)) [
    | inl absent ↦ rw (delete_match-absent laws m actor is_admin w absent) (inl refl)
    | inr (r, found) ↦ rw (delete_match-db laws m actor is_admin r w found) (
        guarded_write (Removal is_admin m i w.db) (not is_admin)
          (if is_confirmed r.status
            then o.save_audit_log (delete_log m actor (loaded r m w)) w.db
            else some w.db)
          w.db (λ d. written (o.delete_match m d) d) (inl refl)
          λ let_in d logged.
            let log = delete_log m actor (loaded r m w) in
            let rows = λ (k : ℕ). logged_row laws k (is_confirmed r.status) log w.db d logged in
            let kept : d.find_row m ≡ some r = rows m ∙ found in
            guarded_written (Removal is_admin m i w.db) false (o.delete_match m d) d (inl (rows i))
              λ _ d' gone.
                by_admin m i w.db d' (ground (arith, let_in))
                  (deleted-RowRemoved laws i w.db d d' kept gone (rows i)))
  ]
