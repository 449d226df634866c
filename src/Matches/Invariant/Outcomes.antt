-- ===== src/Matches/Invariant/Outcomes.antt =====
-- The database after a method of MatchService, as one expression over the row that it read.
use foosball_api.Prelude.{
  ℕ, ◌+◌, ◌≡◌, refl, Bool, true, false, not, ◌&&◌, ◌||◌, Option, none, some, List, arith, map,
  length, ltb, get_or, if◌then◌else◌,
}
use foosball_api.Matches.Entity.{
  MatchRow, MatchPlayer, playing, awaiting_confirmation, is_locked, is_draft,
}
use foosball_api.Matches.Dto.{UpdateMatchDto, AddPlayersDto, SubmitResultDto}
use foosball_api.Matches.Orm.{Tables, Orm}
use foosball_api.Matches.World.{World}
use foosball_api.Matches.MatchService.{
  update, add_players, submit_result, set_if, to_player, is_creator, match_capacity, any_slot_taken,
}

-- the tables after a write that may have failed
abbrev pub written : Option Tables → Tables → Tables
written x d = get_or x d

-- the tables after a write that may have failed, and what follows it
abbrev pub then_written : Option Tables → Tables → (Tables → Tables) → Tables
then_written none d k = d
then_written (some d') d k = k d'

-- What holds of the tables that a refused or failed write leaves, and after a write that was let
-- through, holds of the outcome.
pub guarded_write :
    (P : Tables → Type 0) (refused : Bool) (x : Option Tables) (d : Tables) (k : Tables → Tables)
    → P d
    → (refused ≡ false → (d' : Tables) → x ≡ some d' → P (k d'))
    → P (if refused then d else then_written x d k)
guarded_write P true x d k h next = h
guarded_write P false none d k h next = h
guarded_write P false (some d') d k h next = next refl d' refl

pub guarded_written :
    (P : Tables → Type 0) (refused : Bool) (x : Option Tables) (d : Tables)
    → P d
    → (refused ≡ false → (d' : Tables) → x ≡ some d' → P d')
    → P (if refused then d else written x d)
guarded_written P true x d h next = h
guarded_written P false none d h next = h
guarded_written P false (some d') d h next = next refl d' refl

abbrev pub updated : MatchRow → UpdateMatchDto → MatchRow
updated r dto = record r {
  score_a = set_if dto.score_a r.score_a;
  score_b = set_if dto.score_b r.score_b;
}

abbrev pub submitted : MatchRow → SubmitResultDto → MatchRow
submitted r dto = record r {
  score_a = some dto.score_a;
  score_b = some dto.score_b;
  status = awaiting_confirmation;
}

abbrev pub started : MatchRow → MatchRow
started r = record r { status = playing }

module _ (o : Orm) (m user : ℕ) (w : World) where
  pub update-absent :
      (dto : UpdateMatchDto) → w.db.find_row m ≡ none → (update o m user dto w).1.db ≡ w.db
  unfolding update
  update-absent dto absent = ground arith

  pub update-db :
      (dto : UpdateMatchDto) (r : MatchRow)
      → w.db.find_row m ≡ some r
      → (update o m user dto w).1.db ≡ (
          if not (is_creator r.created_by user) || is_locked r.status
          then w.db
          else written (o.save_match (updated r dto) (some (w.db.find_players m)) w.db) w.db)
  unfolding update
  update-db dto r found = ground arith

  pub submit_result-absent :
      (now : ℕ) (dto : SubmitResultDto)
      → w.db.find_row m ≡ none
      → (submit_result o now m user dto w).1.db ≡ w.db
  unfolding submit_result
  submit_result-absent now dto absent = ground arith

  pub submit_result-db :
      (now : ℕ) (dto : SubmitResultDto) (r : MatchRow)
      → w.db.find_row m ≡ some r
      → (submit_result o now m user dto w).1.db ≡ (
          if not (is_creator r.created_by user)
            || is_locked r.status
            || ltb (length (w.db.find_players m)) (match_capacity r.match_type)
          then w.db
          else written (o.save_match (submitted r dto) (some (w.db.find_players m)) w.db) w.db)
  unfolding submit_result
  submit_result-db now dto r found = ground arith

  pub add_players-absent :
      (dto : AddPlayersDto) → w.db.find_row m ≡ none → (add_players o m user dto w).1.db ≡ w.db
  unfolding add_players
  add_players-absent dto absent = ground arith

  -- the test of every guard of `addPlayers`
  abbrev pub add_refused : AddPlayersDto → MatchRow → Bool
  add_refused dto r =
      not (is_creator r.created_by user)
      || is_locked r.status
      || ltb (match_capacity r.match_type) (length (w.db.find_players m) + length dto.players)
      || any_slot_taken dto.players (w.db.find_players m)

  -- the start of a draft after its players were saved
  abbrev pub after_players : MatchRow → List MatchPlayer → Tables → Tables
  after_players r old d =
      if is_draft r.status && ltb 0 (length (d.find_players m))
      then written (o.save_match (started r) (some old) d) d
      else d

  pub add_players-db :
      (dto : AddPlayersDto) (r : MatchRow)
      → w.db.find_row m ≡ some r
      → (add_players o m user dto w).1.db ≡ (
          if add_refused dto r
          then w.db
          else then_written
              (o.save_players (map (to_player m) dto.players) w.db)
              w.db
              (after_players r (w.db.find_players m)))
  unfolding add_players
  add_players-db dto r found = ground arith
