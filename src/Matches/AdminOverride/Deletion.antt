-- ===== src/Matches/AdminOverride/Deletion.antt =====
-- What the deletion of a confirmed match leaves, by the route of the administrators and by the
-- plain one (`MatchService.delete`).
use foosball_api.Prelude.{
  ℕ, ◌+◌, ◌≡◌, refl, Bool, true, some, none, [], inl, inr, arith, Option-cases, count,
  if◌then◌else◌,
}
use foosball_api.Http.{ok, err, not_found, match_not_found}
use foosball_api.Matches.Entity.{MatchRow, AuditLog, is_confirmed}
use foosball_api.Matches.Orm.{Tables, Orm, OrmLaws}
use foosball_api.Matches.World.{World}
use foosball_api.Matches.MatchService.{delete}
use foosball_api.Matches.AdminOverride.{delete_log, delete_match, get_audit_log}
use foosball_api.Matches.Invariant.Cancel.{loaded}

absent_audit :
    (m : ℕ) (w : World)
    → w.db.find_row m ≡ none
    → get_audit_log m true w ≡ (err (not_found match_not_found), w)
unfolding get_audit_log
absent_audit m w absent = ground arith

-- the match and what hangs on it are gone
abbrev pub IsDeleted : ℕ → Tables → Type 0
IsDeleted m d = (d.find_row m ≡ none) × (d.find_players m ≡ []) × (d.find_confirmations m ≡ [])

deleted :
    {o : Orm} (laws : OrmLaws o) (m : ℕ) (d d' : Tables)
    → o.delete_match m d ≡ some d'
    → IsDeleted m d'
deleted laws m d d' done =
    let gone = laws.delete_match m d d' done in
    (
      ground (arith, gone.row m),
      ground (arith, gone.players m),
      ground (arith, gone.confirmations m),
    )

delete_match-writes :
    (o : Orm) (m actor : ℕ) (r : MatchRow) (w : World) {w' : World}
    → w.db.find_row m ≡ some r
    → is_confirmed r.status ≡ true
    → delete_match o m actor true w ≡ (ok tt, w')
    → (d : Tables) × (o.save_audit_log (delete_log m actor (loaded r m w)) w.db ≡ some d)
      × (o.delete_match m d ≡ some w'.db)
unfolding delete_match
delete_match-writes o m actor r w found done sent =
    elim (Option-cases (o.save_audit_log (delete_log m actor (loaded r m w)) w.db)) [
      | inl failed ↦ ground arith
      | inr (d, saved) ↦ elim (Option-cases (o.delete_match m d)) [
        | inl failed ↦ ground arith
        | inr (d', gone) ↦ (d, saved, ground arith)
      ]
    ]

-- After an administrator has deleted a confirmed match by the administrators' route, the match,
-- its players and its confirmations are gone, and its audit rows are those from before and the
-- row of the deletion; but the request for its audit log is answered with 404.
pub deleted_audit_is_hidden :
    {o : Orm} (laws : OrmLaws o) (m actor : ℕ) (p : AuditLog → Bool) (r : MatchRow) (w : World)
    {w' : World}
    → w.db.find_row m ≡ some r
    → is_confirmed r.status ≡ true
    → delete_match o m actor true w ≡ (ok tt, w')
    → IsDeleted m w'.db
      × (count p (w'.db.find_audit_logs m)
          ≡ (if p (delete_log m actor (loaded r m w)) then 1 else 0)
            + count p (w.db.find_audit_logs m))
      × (get_audit_log m true w' ≡ (err (not_found match_not_found), w'))
deleted_audit_is_hidden {o} laws m actor p r w {w'} found done sent =
    let (d, saved, removed) = delete_match-writes o m actor r w found done sent in
    let gone = deleted laws m d w'.db removed in
    let kept = (laws.delete_match m d w'.db removed).logs m in
    let added =
      (laws.save_audit_log (delete_log m actor (loaded r m w)) w.db d saved).added refl m p in
    (gone, rw kept (ground (arith, added)), absent_audit m w' gone.0)

-- A successful `DELETE /matches/:matchId` leaves every audit row as it was and adds none,
-- also where the match was confirmed.
plain_deletion_is_unlogged :
    {o : Orm} (laws : OrmLaws o) (m user : ℕ) (is_admin : Bool) (w : World) {w' : World}
    → delete o m user is_admin w ≡ (ok tt, w')
    → IsDeleted m w'.db
      × ((i : ℕ) → w'.db.find_audit_logs i ≡ w.db.find_audit_logs i)
      × (is_admin ≡ true)
unfolding delete
plain_deletion_is_unlogged {o} laws m user is_admin w {w'} sent =
    elim (Option-cases (o.delete_match m w.db)) [
      | inl failed ↦ ground arith
      | inr (d, gone) ↦
          let same : o.delete_match m w.db ≡ some w'.db = ground arith in
          (deleted laws m w.db w'.db same, (laws.delete_match m w.db w'.db same).logs, ground arith)
    ]
