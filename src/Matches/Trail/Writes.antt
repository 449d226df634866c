-- ===== src/Matches/Trail/Writes.antt =====
-- What every successful write of the database keeps, every method of MatchService keeps.
use mathlib.Core.Path.{subst}
use foosball_api.Prelude.{
  ℕ, ◌≡◌, Bool, false, not, ◌||◌, ◌&&◌, Option, some, List, inl, inr, arith, Option-cases,
  Bool-cases, map, length, ltb,
}
use foosball_api.Matches.Entity.{
  MatchRow, MatchType, MatchStatus, MatchPlayer, AuditLog, draft, is_locked, is_draft,
}
use foosball_api.Matches.Dto.{
  CreateMatchDto, created_type, UpdateMatchDto, AddPlayersDto, SubmitResultDto,
}
use foosball_api.Matches.Orm.{Tables, Orm, OrmLaws}
use foosball_api.Matches.World.{World}
use foosball_api.Matches.MatchService
use foosball_api.Matches.MatchService.{is_creator, match_capacity, to_player}
use foosball_api.Matches.Invariant.Outcomes.{
  updated, submitted, started, update-absent, update-db, submit_result-absent, submit_result-db,
  add_players-absent, add_players-db, add_refused, after_players, guarded_write, guarded_written,
}

-- every write that succeeds keeps it; audit rows are of matches
pub record Closed (o : Orm) (P : Tables → Type 0) : Type 0 where
  pub insert :
      (by : Option ℕ) (t : MatchType) (s : MatchStatus) (r : MatchRow) (d d' : Tables)
      → o.insert_match by t s d ≡ some (r, d')
      → P d
      → P d'
  pub save :
      (r : MatchRow) (rel : Option (List MatchPlayer)) (d d' : Tables)
      → o.save_match r rel d ≡ some d'
      → P d
      → P d'
  pub delete : (m : ℕ) (d d' : Tables) → o.delete_match m d ≡ some d' → P d → P d'
  pub save_players :
      (ps : List MatchPlayer) (d d' : Tables) → o.save_players ps d ≡ some d' → P d → P d'
  pub save_confirmation :
      (m u now : ℕ) (d d' : Tables) → o.save_confirmation m u now d ≡ some d' → P d → P d'
  pub delete_confirmations :
      (m : ℕ) (d d' : Tables) → o.delete_confirmations m d ≡ some d' → P d → P d'
  pub save_audit_log :
      (l : AuditLog) (d d' : Tables)
      → l.entity_type ≡ "match"
      → o.save_audit_log l d ≡ some d'
      → P d
      → P d'

module _ {o : Orm} (laws : OrmLaws o) {P : Tables → Type 0} (closed : Closed o P) (m user : ℕ)
    (w : World) (h : P w.db) where
  pub create-keeps : (dto : CreateMatchDto) → P (MatchService.create o user dto w).1.db
  unfolding MatchService.create
  create-keeps dto =
      elim (Option-cases (o.insert_match (some user) (created_type dto) draft w.db)) [
        | inl failed ↦ subst P (ground arith) h
        | inr ((r, d), inserted) ↦
            subst P (ground arith)
              (closed.insert (some user) (created_type dto) draft r w.db d inserted h)
      ]

  pub delete-keeps : (is_admin : Bool) → P (MatchService.delete o m user is_admin w).1.db
  unfolding MatchService.delete
  delete-keeps is_admin = elim (Option-cases (o.delete_match m w.db)) [
    | inl failed ↦ subst P (ground arith) h
    | inr (d, gone) ↦ elim (Option-cases (w.db.find_row m)) [
      | inl absent ↦ subst P (ground arith) h
      | inr (r, found) ↦ elim (Bool-cases is_admin) [
        | inl admin ↦ subst P (ground arith) (closed.delete m w.db d gone h)
        | inr plain ↦ subst P (ground arith) h
      ]
    ]
  ]

  pub update-keeps : (dto : UpdateMatchDto) → P (MatchService.update o m user dto w).1.db
  update-keeps dto = elim (Option-cases (w.db.find_row m)) [
    | inl absent ↦ rw (update-absent o m user w dto absent) h
    | inr (r, found) ↦ rw (update-db o m user w dto r found) (
        guarded_written P (not (is_creator r.created_by user) || is_locked r.status)
          (o.save_match (updated r dto) (some (w.db.find_players m)) w.db) w.db h
          λ _ d saved. closed.save (updated r dto) (some (w.db.find_players m)) w.db d saved h)
  ]

  pub submit_result-keeps :
      (now : ℕ) (dto : SubmitResultDto) → P (MatchService.submit_result o now m user dto w).1.db
  submit_result-keeps now dto = elim (Option-cases (w.db.find_row m)) [
    | inl absent ↦ rw (submit_result-absent o m user w now dto absent) h
    | inr (r, found) ↦ rw (submit_result-db o m user w now dto r found) (
        guarded_written P
          (not (is_creator r.created_by user)
            || is_locked r.status
            || ltb (length (w.db.find_players m)) (match_capacity r.match_type))
          (o.save_match (submitted r dto) (some (w.db.find_players m)) w.db) w.db h
          λ _ d saved. closed.save (submitted r dto) (some (w.db.find_players m)) w.db d saved h)
  ]

  starting-keeps :
      (r : MatchRow) (old : List MatchPlayer) (d : Tables)
      → P d
      → P (after_players o m user w r old d)
  starting-keeps r old d k =
      elim (Bool-cases (is_draft r.status && ltb 0 (length (d.find_players m)))) [
        | inr no_start ↦ rw no_start k
        | inl start ↦ rw start (
            guarded_written P false (o.save_match (started r) (some old) d) d k
              λ _ d' saved. closed.save (started r) (some old) d d' saved k)
      ]

  pub add_players-keeps : (dto : AddPlayersDto) → P (MatchService.add_players o m user dto w).1.db
  add_players-keeps dto = elim (Option-cases (w.db.find_row m)) [
    | inl absent ↦ rw (add_players-absent o m user w dto absent) h
    | inr (r, found) ↦ rw (add_players-db o m user w dto r found) (
        guarded_write P (add_refused o m user w dto r)
          (o.save_players (map (to_player m) dto.players) w.db) w.db
          (after_players o m user w r (w.db.find_players m)) h
          λ _ d saved.
            starting-keeps r (w.db.find_players m) d
              (closed.save_players (map (to_player m) dto.players) w.db d saved h))
  ]
