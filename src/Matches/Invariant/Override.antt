-- ===== src/Matches/Invariant/Override.antt =====
-- AdminOverrideService keeps the invariant.
use mathlib.Core.Path.{subst}
use foosball_api.Prelude.{
  ◌&&◌, if◌then◌else◌, not, ℕ, ◌≡◌, Bool, true, false, none, some, inl, inr, arith, Option-cases,
  Bool-cases,
}
use foosball_api.Matches.Entity.{MatchRow, is_confirmed}
use foosball_api.Matches.Dto.{AdminOverrideResultDto, override_valid}
use foosball_api.Matches.Orm.{Tables, Orm, OrmLaws}
use foosball_api.Matches.Orm.At.{save_loaded_at, save_audit_log_at, delete_match_at}
use foosball_api.Matches.World.{World, transaction}
use foosball_api.Matches.AdminOverride.{
  override_log, delete_log, override_writes, override_result, delete_match,
}
use foosball_api.Matches.Invariant.Defs.{IsConsistent}
use foosball_api.Matches.Invariant.Outcomes.{written, then_written, guarded_write}
use foosball_api.Matches.Invariant.Cancel.{loaded}
use foosball_api.Matches.Invariant.Votes.{transaction-db}

abbrev pub rescored : MatchRow → AdminOverrideResultDto → MatchRow
rescored r dto = record r { score_a = some dto.score_a; score_b = some dto.score_b }

module _ {o : Orm} (laws : OrmLaws o) (now m actor : ℕ) (dto : AdminOverrideResultDto) where
  save_rescored-IsConsistent :
      (r : MatchRow) (d d' : Tables)
      → d.find_row m ≡ some r
      → override_valid dto ≡ true
      → o.save_match (rescored r dto) (some (d.find_players m)) d ≡ some d'
      → IsConsistent d
      → IsConsistent d'
  unfolding override_valid
  save_rescored-IsConsistent r d d' found valid saved h i u =
      ground (arith, h i u, h m u, save_loaded_at laws d i u (rescored r dto))

  save_log-IsConsistent :
      (r : MatchRow) (w : World) (d : Tables)
      → IsConsistent d
      → IsConsistent (written (o.save_audit_log (override_log m actor (loaded r m w) dto) d) d)
  save_log-IsConsistent r w d h i u =
      ground (arith, h i u, save_audit_log_at laws d i u (override_log m actor (loaded r m w) dto))

  pub override_writes-db :
      (r : MatchRow) (w : World)
      → (override_writes o now m actor (loaded r m w) dto w).1.db
        ≡ then_written
            (o.save_match (rescored r dto) (some (w.db.find_players m)) w.db)
            w.db
            (λ d. written (o.save_audit_log (override_log m actor (loaded r m w) dto) d) d)
  unfolding override_writes
  override_writes-db r w = ground arith

  override_writes-IsConsistent :
      (r : MatchRow) (w : World)
      → w.db.find_row m ≡ some r
      → override_valid dto ≡ true
      → IsConsistent w.db
      → IsConsistent (override_writes o now m actor (loaded r m w) dto w).1.db
  override_writes-IsConsistent r w found valid h = rw (override_writes-db r w) (
      guarded_write IsConsistent false
        (o.save_match (rescored r dto) (some (w.db.find_players m)) w.db) w.db
        (λ d. written (o.save_audit_log (override_log m actor (loaded r m w) dto) d) d) h
        λ _ d saved.
          save_log-IsConsistent r w d (save_rescored-IsConsistent r w.db d found valid saved h))

  pub override_result-db :
      (is_admin : Bool) (r : MatchRow) (w : World)
      → w.db.find_row m ≡ some r
      → (override_result o now m actor is_admin dto w).1.db ≡ (
          if is_admin && is_confirmed r.status
          then (transaction (override_writes o now m actor (loaded r m w) dto) w).1.db
          else w.db)
  unfolding override_result
  override_result-db is_admin r w found = ground arith

  pub override_result-absent :
      (is_admin : Bool) (w : World)
      → w.db.find_row m ≡ none
      → (override_result o now m actor is_admin dto w).1.db ≡ w.db
  unfolding override_result
  override_result-absent is_admin w absent = ground arith

  pub override_result-IsConsistent :
      (is_admin : Bool) (w : World)
      → override_valid dto ≡ true
      → IsConsistent w.db
      → IsConsistent (override_result o now m actor is_admin dto w).1.db
  override_result-IsConsistent is_admin w valid h = elim (Option-cases (w.db.find_row m)) [
    | inl absent ↦ rw (override_result-absent is_admin w absent) h
    | inr (r, found) ↦
        rw (override_result-db is_admin r w found)
          (elim (Bool-cases (is_admin && is_confirmed r.status)) [
            | inl allowed ↦ rw allowed (
                transaction-db IsConsistent (override_writes o now m actor (loaded r m w) dto) w h
                  (override_writes-IsConsistent r w found valid h))
            | inr refused ↦ rw refused h
          ])
  ]

module _ {o : Orm} (laws : OrmLaws o) (m actor : ℕ) where
  log_deletion-IsConsistent :
      (r : MatchRow) (w : World)
      → IsConsistent w.db
      → IsConsistent (written (o.save_audit_log (delete_log m actor (loaded r m w)) w.db) w.db)
  log_deletion-IsConsistent r w h i u =
      ground (arith, h i u, save_audit_log_at laws w.db i u (delete_log m actor (loaded r m w)))

  delete_row-IsConsistent :
      (d : Tables) → IsConsistent d → IsConsistent (written (o.delete_match m d) d)
  delete_row-IsConsistent d h i u = ground (arith, h i u, delete_match_at laws d i u m)

  pub delete_match-absent :
      (is_admin : Bool) (w : World)
      → w.db.find_row m ≡ none
      → (delete_match o m actor is_admin w).1.db ≡ w.db
  unfolding delete_match
  delete_match-absent is_admin w absent = ground arith

  pub delete_match-db :
      (is_admin : Bool) (r : MatchRow) (w : World)
      → w.db.find_row m ≡ some r
      → (delete_match o m actor is_admin w).1.db ≡ (
          if not is_admin
          then w.db
          else then_written
              (if is_confirmed r.status
                then o.save_audit_log (delete_log m actor (loaded r m w)) w.db
                else some w.db)
              w.db
              (λ d. written (o.delete_match m d) d))
  unfolding delete_match
  delete_match-db is_admin r w found = ground arith

  pub delete_match-IsConsistent :
      (is_admin : Bool) (w : World)
      → IsConsistent w.db
      → IsConsistent (delete_match o m actor is_admin w).1.db
  delete_match-IsConsistent is_admin w h = elim (Option-cases (w.db.find_row m)) [
    | inl absent ↦ rw (delete_match-absent is_admin w absent) h
    | inr (r, found) ↦
        rw (delete_match-db is_admin r w found) (elim (Bool-cases (is_confirmed r.status)) [
          | inl logged ↦ rw logged (
              guarded_write IsConsistent (not is_admin)
                (o.save_audit_log (delete_log m actor (loaded r m w)) w.db) w.db
                (λ d. written (o.delete_match m d) d) h
                λ _ d saved.
                  let kept = log_deletion-IsConsistent r w h in
                  delete_row-IsConsistent d (rw saved at kept))
          | inr unlogged ↦ rw unlogged (
              guarded_write IsConsistent (not is_admin) (some w.db) w.db
                (λ d. written (o.delete_match m d) d) h
                λ _ d same.
                  let same_db : w.db ≡ d = cc in
                  delete_row-IsConsistent d (subst IsConsistent same_db h))
        ])
  ]
