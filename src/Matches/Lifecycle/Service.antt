-- ===== src/Matches/Lifecycle/Service.antt =====
-- What the methods of MatchService do to the row of a match.
use foosball_api.Prelude.{
  ℕ, ◌≡◌, ◌⊎◌, refl, inl, inr, arith, Bool, true, false, none, some, ◌&&◌, ◌||◌, not, ltb, ◌==◌,
  length, map, Option-cases, Bool-cases, if◌then◌else◌,
}
use foosball_api.Matches.Entity.{
  MatchRow, draft, playing, awaiting_confirmation, is_locked, is_draft,
}
use foosball_api.Matches.Dto.{
  CreateMatchDto, created_type, UpdateMatchDto, AddPlayersDto, SubmitResultDto,
}
use foosball_api.Matches.Orm.{Tables, Orm, OrmLaws}
use foosball_api.Matches.World.{World}
use foosball_api.Matches.MatchService.{
  create, update, delete, add_players, submit_result, to_player, is_creator, match_capacity,
}
use foosball_api.Matches.Invariant.Defs.{IsConsistent}
use foosball_api.Matches.Invariant.Outcomes.{
  updated, submitted, started, update-absent, update-db, submit_result-absent, submit_result-db,
  add_players-absent, add_players-db, add_refused, after_players, guarded_write, guarded_written,
  written,
}
use foosball_api.Matches.Lifecycle.{stage}
use foosball_api.Matches.Lifecycle.Rows.{
  RowMoves, RowRemoved, same_row, saved-RowMoves, deleted-RowRemoved, row_keyed,
}

-- the stage is as it was
abbrev pub Rewritten : MatchRow → MatchRow → Type 0
Rewritten r r' = stage r' ≡ stage r

abbrev pub Submitted : ℕ → MatchRow → MatchRow → Type 0
Submitted user r r' =
    (is_locked r.status ≡ false)
    × (is_creator r.created_by user ≡ true)
    × (stage r' ≡ record { status = awaiting_confirmation; creator = r.created_by })

abbrev pub Started : ℕ → MatchRow → MatchRow → Type 0
Started user r r' =
    (r.status ≡ draft)
    × (is_creator r.created_by user ≡ true)
    × (stage r' ≡ record { status = playing; creator = r.created_by })

-- a row that is gone was removed by an administrator
abbrev pub Removal : Bool → (k i : ℕ) → Tables → Tables → Type 0
Removal is_admin k i d d' =
    (d'.find_row i ≡ d.find_row i)
    ⊎ ((is_admin ≡ true)
        × (i ≡ k)
        × (r : MatchRow) × (d.find_row i ≡ some r)
        × (d'.find_row i ≡ none))

pub by_admin :
    {is_admin : Bool} (k i : ℕ) (d d' : Tables)
    → is_admin ≡ true
    → RowRemoved k i d d'
    → Removal is_admin k i d d'
by_admin k i d d' admin (inl same) = inl same
by_admin k i d d' admin (inr (e, r, found, gone)) = inr (admin, e, r, found, gone)

module _ {o : Orm} (laws : OrmLaws o) (i user : ℕ) (w : World) where
  pub create-row :
      (dto : CreateMatchDto)
      → ((create o user dto w).1.db.find_row i ≡ w.db.find_row i)
        ⊎ ((r : MatchRow) × (w.db.find_row i ≡ none)
            × ((create o user dto w).1.db.find_row i ≡ some r)
            × (stage r ≡ record { status = draft; creator = some user }))
  unfolding create
  create-row dto = elim (Option-cases (o.insert_match (some user) (created_type dto) draft w.db)) [
    | inl failed ↦ inl (ground arith)
    | inr ((r, d), inserted) ↦
        let n = laws.insert_match (some user) (created_type dto) draft r w.db d inserted in
        elim (Bool-cases (i == r.id)) [
          | inr other ↦ inl (ground (arith, n.row i))
          | inl same ↦
              let e : i ≡ r.id = ground (arith, same) in
              inr (
                r,
                ground (arith, e, n.fresh),
                ground (arith, inserted, n.row i, same),
                ground (arith, n.columns),
              )
        ]
  ]

  -- the deletion of a match that exists
  removal : Bool → ℕ → Tables
  removal is_admin m = if not is_admin then w.db else written (o.delete_match m w.db) w.db

  delete-db :
      (m : ℕ) (is_admin : Bool) {r : MatchRow}
      → w.db.find_row m ≡ some r
      → (delete o m user is_admin w).1.db ≡ removal is_admin m
  unfolding delete removal
  delete-db m is_admin found = ground arith

  delete-absent :
      (m : ℕ) (is_admin : Bool) → w.db.find_row m ≡ none → (delete o m user is_admin w).1.db ≡ w.db
  unfolding delete
  delete-absent m is_admin absent = ground arith

  pub delete-row :
      (m : ℕ) (is_admin : Bool) → Removal is_admin m i w.db (delete o m user is_admin w).1.db
  unfolding removal
  delete-row m is_admin = elim (Option-cases (w.db.find_row m)) [
    | inl absent ↦ rw (delete-absent m is_admin absent) (inl refl)
    | inr (r, found) ↦ rw (delete-db m is_admin found) (
        guarded_written (Removal is_admin m i w.db) (not is_admin) (o.delete_match m w.db) w.db
          (inl refl)
          λ let_in d gone.
            by_admin m i w.db d (ground (arith, let_in))
              (deleted-RowRemoved laws i w.db w.db d found gone refl))
  ]

  module _ (m : ℕ) (h : IsConsistent w.db) where
    pub update-row :
        (dto : UpdateMatchDto) → RowMoves Rewritten m i w.db (update o m user dto w).1.db
    update-row dto = elim (Option-cases (w.db.find_row m)) [
      | inl absent ↦ rw (update-absent o m user w dto absent) (same_row Rewritten m i w.db)
      | inr (r, found) ↦ rw (update-db o m user w dto r found) (
          guarded_written (RowMoves Rewritten m i w.db)
            (not (is_creator r.created_by user) || is_locked r.status)
            (o.save_match (updated r dto) (some (w.db.find_players m)) w.db) w.db
            (same_row Rewritten m i w.db)
            λ _ d saved.
              saved-RowMoves laws Rewritten i (some (w.db.find_players m)) w.db w.db d found
                (row_keyed m h found) refl saved refl)
    ]

    pub submit_result-row :
        (now : ℕ) (dto : SubmitResultDto)
        → RowMoves (Submitted user) m i w.db (submit_result o now m user dto w).1.db
    submit_result-row now dto = elim (Option-cases (w.db.find_row m)) [
      | inl absent ↦
          rw (submit_result-absent o m user w now dto absent) (same_row (Submitted user) m i w.db)
      | inr (r, found) ↦ rw (submit_result-db o m user w now dto r found) (
          guarded_written (RowMoves (Submitted user) m i w.db)
            (not (is_creator r.created_by user)
              || is_locked r.status
              || ltb (length (w.db.find_players m)) (match_capacity r.match_type))
            (o.save_match (submitted r dto) (some (w.db.find_players m)) w.db) w.db
            (same_row (Submitted user) m i w.db)
            λ let_in d saved.
              saved-RowMoves laws (Submitted user) i (some (w.db.find_players m)) w.db w.db d found
                (row_keyed m h found) (ground (arith, let_in), ground (arith, let_in), refl) saved
                refl)
    ]

    starting :
        (dto : AddPlayersDto) (r : MatchRow) (d : Tables)
        → is_creator r.created_by user ≡ true
        → d.find_row m ≡ some r
        → r.id ≡ m
        → d.find_row i ≡ w.db.find_row i
        → RowMoves (Started user) m i w.db (after_players o m user w r (w.db.find_players m) d)
    starting dto r d creator found keyed kept =
        elim (Bool-cases (is_draft r.status && ltb 0 (length (d.find_players m)))) [
          | inr no_start ↦ rw no_start (inl kept)
          | inl start ↦ rw start (
              guarded_written (RowMoves (Started user) m i w.db) false
                (o.save_match (started r) (some (w.db.find_players m)) d) d (inl kept)
                λ _ d' saved.
                  saved-RowMoves laws (Started user) i (some (w.db.find_players m)) w.db d d' found
                    keyed (ground (arith, start), creator, refl) saved kept)
        ]

    pub add_players-row :
        (dto : AddPlayersDto) → RowMoves (Started user) m i w.db (add_players o m user dto w).1.db
    add_players-row dto = elim (Option-cases (w.db.find_row m)) [
      | inl absent ↦
          rw (add_players-absent o m user w dto absent) (same_row (Started user) m i w.db)
      | inr (r, found) ↦ rw (add_players-db o m user w dto r found) (
          guarded_write (RowMoves (Started user) m i w.db) (add_refused o m user w dto r)
            (o.save_players (map (to_player m) dto.players) w.db) w.db
            (after_players o m user w r (w.db.find_players m)) (same_row (Started user) m i w.db)
            λ let_in d saved.
              let rows = (laws.save_players (map (to_player m) dto.players) w.db d saved).rows in
              let kept : d.find_row m ≡ some r = rw (rows m) found in
              starting dto r d (ground (arith, let_in)) kept (row_keyed m h found) (rows i))
    ]
