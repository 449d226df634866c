-- ===== src/Matches/Lifecycle/History.antt =====
-- Every history of requests runs the state machine.
use mathlib.Core.Path.{subst}
use foosball_api.Prelude.{
  ℕ, ◌≡◌, refl, sym, ap, ◌∙◌, inl, inr, Bool, true, false, none, some, List, [], ◌∷◌, if◌then◌else◌,
}
use foosball_api.Matches.Entity.{MatchRow}
use foosball_api.Matches.Orm.{Tables, Orm, OrmLaws}
use foosball_api.Matches.World.{World}
use foosball_api.Matches.MatchService
use foosball_api.Matches.Confirmation
use foosball_api.Matches.AdminOverride
use foosball_api.Matches.Dto.{update_valid, submit_valid, add_players_valid, override_valid}
use foosball_api.Matches.Requests.{
  Caller, Request, create_match, update_match, delete_match, add_players, submit_result,
  confirm_result, cancel_confirmation, admin_override_result, admin_delete_match, handle, serve,
}
use foosball_api.Matches.Invariant.Defs.{IsConsistent}
use foosball_api.Matches.Invariant.History.{handle-IsConsistent}
use foosball_api.Matches.Lifecycle.{Stage, stage, stage_of, Move, Moves}
use foosball_api.Matches.Lifecycle.Rows.{RowMoves}
use foosball_api.Matches.Lifecycle.Service.{
  Rewritten, Submitted, Started, Removal, create-row, delete-row, update-row, submit_result-row,
  add_players-row,
}
use foosball_api.Matches.Lifecycle.Votes.{Confirmed, Reopened, confirm-row, cancel-row}
use foosball_api.Matches.Lifecycle.Override.{override_result-row, delete_match-row}

-- the move of the match `i` that a request makes from one state of the tables to another
abbrev Moved : ℕ → Caller → Request → Tables → Tables → Type 0
Moved i c q d d' = Move i c (stage_of (d.find_row i)) (stage_of (d'.find_row i)) q

-- a request `q k` about the match `k`, by what it does to a row
by_row :
    (P : MatchRow → MatchRow → Type 0) (k i : ℕ) (c : Caller) (q : ℕ → Request) (d d' : Tables)
    → RowMoves P k i d d'
    → ((r r' : MatchRow)
        → stage_of (d.find_row i) ≡ some (stage r)
        → stage_of (d'.find_row i) ≡ some (stage r')
        → P r r'
        → Moved i c (q i) d d')
    → Moved i c (q k) d d'
by_row P k i c q d d' (inl same) move = Move.stay (q k) (ap stage_of same)
by_row P k i c q d d' (inr (e, r, r', found, found', p)) move =
    subst (λ j. Moved i c (q j) d d') e (move r r' (ap stage_of found) (ap stage_of found') p)

by-Removal :
    (k i : ℕ) (c : Caller) (q : ℕ → Request) (d d' : Tables)
    → Removal c.is_admin k i d d'
    → ((s : Stage)
        → c.is_admin ≡ true
        → stage_of (d.find_row i) ≡ some s
        → stage_of (d'.find_row i) ≡ none
        → Moved i c (q i) d d')
    → Moved i c (q k) d d'
by-Removal k i c q d d' (inl same) move = Move.stay (q k) (ap stage_of same)
by-Removal k i c q d d' (inr (admin, e, r, found, gone)) move =
    subst (λ j. Moved i c (q j) d d') e
      (move (stage r) admin (ap stage_of found) (ap stage_of gone))

validated :
    (valid : Bool) (i : ℕ) (c : Caller) (q : Request) (w w' : World)
    → Moved i c q w.db w'.db
    → Moved i c q w.db (if valid then w' else w).db
validated true i c q w w' move = move
validated false i c q w w' move = Move.stay q refl

module _ {o : Orm} (laws : OrmLaws o) (i now : ℕ) (c : Caller) (w : World)
    (h : IsConsistent w.db) where
  rewritten :
      (k : ℕ) (q : ℕ → Request) (d : Tables)
      → RowMoves Rewritten k i w.db d
      → Moved i c (q k) w.db d
  rewritten k q d moved =
      by_row Rewritten k i c q w.db d moved
        λ r r' found found' same. Move.stay (q i) (found' ∙ ap some same ∙ sym found)

  handle-Move : (q : Request) → Moved i c q w.db (handle o now c q w).db
  unfolding handle
  handle-Move (create_match dto) = elim (create-row laws i c.sub w dto) [
    | inl same ↦ Move.stay (create_match dto) (ap stage_of same)
    | inr (r, absent, found, drafted) ↦
        Move.begin dto (ap stage_of absent) (ap stage_of found ∙ ap some drafted)
  ]
  handle-Move (update_match k dto) =
      let w' = (MatchService.update o k c.sub dto w).1 in
      validated (update_valid dto) i c (update_match k dto) w w'
        (rewritten k (λ j. update_match j dto) w'.db (update-row laws i c.sub w k h dto))
  handle-Move (delete_match k) =
      by-Removal k i c delete_match w.db (MatchService.delete o k c.sub c.is_admin w).1.db
        (delete-row laws i c.sub w k c.is_admin) Move.remove
  handle-Move (add_players k dto) =
      let w' = (MatchService.add_players o k c.sub dto w).1 in
      validated (add_players_valid dto) i c (add_players k dto) w w' (
        by_row (Started c.sub) k i c (λ j. add_players j dto) w.db w'.db
          (add_players-row laws i c.sub w k h dto)
          λ r r' found found' p. Move.start (stage r) dto found p.0 p.1 (found' ∙ ap some p.2))
  handle-Move (submit_result k dto) =
      let w' = (MatchService.submit_result o now k c.sub dto w).1 in
      validated (submit_valid dto) i c (submit_result k dto) w w' (
        by_row (Submitted c.sub) k i c (λ j. submit_result j dto) w.db w'.db
          (submit_result-row laws i c.sub w k h now dto)
          λ r r' found found' p. Move.submit (stage r) dto found p.0 p.1 (found' ∙ ap some p.2))
  handle-Move (confirm_result k) =
      by_row Confirmed k i c confirm_result w.db (Confirmation.confirm o now k c.sub w).1.db
        (confirm-row laws now k c.sub i w h)
        λ r r' found found' p. Move.confirm (stage r) found p.0 (found' ∙ ap some p.1)
  handle-Move (cancel_confirmation k) =
      by_row (Reopened c.sub) k i c cancel_confirmation w.db
        (Confirmation.cancel o now k c.sub w).1.db (cancel-row laws now k c.sub i w h)
        λ r r' found found' p. Move.reopen (stage r) found p.0 p.1 (found' ∙ ap some p.2)
  handle-Move (admin_override_result k dto) =
      let w' = (AdminOverride.override_result o now k c.sub c.is_admin dto w).1 in
      validated (override_valid dto) i c (admin_override_result k dto) w w' (
        rewritten k (λ j. admin_override_result j dto) w'.db
          (override_result-row laws k c.sub i c.is_admin w now dto h))
  handle-Move (admin_delete_match k) =
      by-Removal k i c admin_delete_match w.db
        (AdminOverride.delete_match o k c.sub c.is_admin w).1.db
        (delete_match-row laws k c.sub i c.is_admin w) Move.remove_any

-- Whatever requests run one after the other over a consistent database, with writes that may fail
-- at any point: each makes one move of the state machine of a match, or none. A match begins as a
-- draft of its creator, is started by the creator's adding of players, submitted by the creator
-- unless it is under confirmation or confirmed, confirmed by a vote and reopened by the creator
-- only while it awaits confirmation, and removed by an administrator only.
pub serve-Moves :
    {o : Orm} (laws : OrmLaws o) (i : ℕ) (qs : List (ℕ × Caller × Request)) (w : World)
    → IsConsistent w.db
    → Moves i qs (stage_of (w.db.find_row i)) (stage_of ((serve o qs w).db.find_row i))
unfolding serve
serve-Moves laws i [] w h = Moves.here _
serve-Moves {o} laws i ((now, c, q) ∷ qs) w h =
    Moves.next now c q (handle-Move laws i now c w h q)
      (serve-Moves laws i qs (handle o now c q w) (handle-IsConsistent laws now c q w h))
