-- ===== src/Matches/Invariant/Service.antt =====
-- MatchService keeps the invariant.
use foosball_api.Prelude.{
  ℕ, ◌≡◌, ◌≢◌, refl, Bool, true, false, some, List, [], ◌∷◌, inl, inr, arith, Option-cases, map,
  count,
}
use foosball_api.Matches.Entity.{MatchRow, MatchPlayer, is_locked, draft}
use foosball_api.Matches.Dto.{
  CreateMatchDto, created_type, UpdateMatchDto, PlayerDto, AddPlayersDto, SubmitResultDto,
  update_valid, given_valid, submit_valid, optional_score_valid,
}
use foosball_api.Matches.Orm.{Tables, Orm, OrmLaws, of_match}
use foosball_api.Matches.Orm.At.{
  insert_at, save_loaded_at, save_at, save_players_at, delete_match_at,
}
use foosball_api.Matches.World.{World}
use foosball_api.Matches.MatchService.{
  create, update, delete, add_players, submit_result, to_player,
}
use foosball_api.Matches.Invariant.Defs.{IsConsistent}
use foosball_api.Matches.Invariant.Outcomes.{
  updated, submitted, started, update-absent, update-db, submit_result-absent, submit_result-db,
  add_players-absent, add_players-db, add_refused, after_players, guarded_write,
}

to_player-other :
    (i m : ℕ) (ps : List PlayerDto) → i ≢ m → count (of_match i) (map (to_player m) ps) ≡ 0
to_player-other i m [] h = refl
to_player-other i m (p ∷ ps) h = ground (arith, to_player-other i m ps h)

module _ {o : Orm} (laws : OrmLaws o) where
  pub create-IsConsistent :
      (user : ℕ) (dto : CreateMatchDto) (w : World)
      → IsConsistent w.db
      → IsConsistent (create o user dto w).1.db
  unfolding create optional_score_valid
  create-IsConsistent user dto w h i u =
      ground (arith, h i u, insert_at laws w.db i u (some user) (created_type dto) draft)

  pub delete-IsConsistent :
      (m user : ℕ) (is_admin : Bool) (w : World)
      → IsConsistent w.db
      → IsConsistent (delete o m user is_admin w).1.db
  unfolding delete
  delete-IsConsistent m user is_admin w h i u =
      ground (arith, h i u, delete_match_at laws w.db i u m)

  pub update-IsConsistent :
      (m user : ℕ) (dto : UpdateMatchDto) (w : World)
      → update_valid dto ≡ true
      → IsConsistent w.db
      → IsConsistent (update o m user dto w).1.db
  unfolding update_valid given_valid
  update-IsConsistent m user dto w valid h i u = elim (Option-cases (w.db.find_row m)) [
    | inl absent ↦ rw (update-absent o m user w dto absent) (h i u)
    | inr (r, found) ↦
        rw (update-db o m user w dto r found)
          (ground (arith, h i u, h m u, save_loaded_at laws w.db i u (updated r dto)))
  ]

  pub submit_result-IsConsistent :
      (now m user : ℕ) (dto : SubmitResultDto) (w : World)
      → submit_valid dto ≡ true
      → IsConsistent w.db
      → IsConsistent (submit_result o now m user dto w).1.db
  unfolding submit_valid
  submit_result-IsConsistent now m user dto w valid h i u = elim (Option-cases (w.db.find_row m)) [
    | inl absent ↦ rw (submit_result-absent o m user w now dto absent) (h i u)
    | inr (r, found) ↦
        rw (submit_result-db o m user w now dto r found)
          (ground (arith, h i u, h m u, save_loaded_at laws w.db i u (submitted r dto)))
  ]

  -- saving players of an unlocked match
  save_players-ConsistentAt :
      (m : ℕ) (ps : List PlayerDto) {r : MatchRow} (d d' : Tables)
      → d.find_row m ≡ some r
      → is_locked r.status ≡ false
      → o.save_players (map (to_player m) ps) d ≡ some d'
      → IsConsistent d
      → IsConsistent d'
  save_players-ConsistentAt m ps d d' found unlocked saved h i u =
      ground
        (arith, h i u, to_player-other i m ps, save_players_at laws d i u (map (to_player m) ps))

  after_players-ConsistentAt :
      (m user : ℕ) (w : World) (r : MatchRow) (old : List MatchPlayer) (d : Tables)
      → d.find_row m ≡ some r
      → IsConsistent d
      → IsConsistent (after_players o m user w r old d)
  after_players-ConsistentAt m user w r old d found h i u =
      ground (arith, h i u, h m u, save_at laws d i u (started r) (some old))

  pub add_players-IsConsistent :
      (m user : ℕ) (dto : AddPlayersDto) (w : World)
      → IsConsistent w.db
      → IsConsistent (add_players o m user dto w).1.db
  add_players-IsConsistent m user dto w h = elim (Option-cases (w.db.find_row m)) [
    | inl absent ↦ rw (add_players-absent o m user w dto absent) h
    | inr (r, found) ↦ rw (add_players-db o m user w dto r found) (
        guarded_write IsConsistent (add_refused o m user w dto r)
          (o.save_players (map (to_player m) dto.players) w.db) w.db
          (after_players o m user w r (w.db.find_players m)) h
          λ let_through d saved.
            let unlocked : is_locked r.status ≡ false = ground arith in
            let kept : d.find_row m ≡ some r =
              rw ((laws.save_players (map (to_player m) dto.players) w.db d saved).rows m) found in
            after_players-ConsistentAt m user w r (w.db.find_players m) d kept
              (save_players-ConsistentAt m dto.players w.db d found unlocked saved h))
  ]
