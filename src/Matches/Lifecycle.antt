-- ===== src/Matches/Lifecycle.antt =====
-- The state machine of a match, as docs/API.md draws it and libs/matches runs it: what a request
-- may do to the status of one match, and who may. It forgets scores, players, confirmations and
-- times. Nothing leads to `cancelled`.
pub mod Rows
pub mod Service
pub mod Votes
pub mod Override
pub mod History
pub mod Voted
use foosball_api.Prelude.{ℕ, ◌≡◌, true, false, Option, none, some, List, [], ◌∷◌}
use foosball_api.Matches.Entity.{
  MatchStatus, draft, playing, awaiting_confirmation, confirmed, MatchRow, is_locked,
}
use foosball_api.Matches.Dto.{CreateMatchDto, AddPlayersDto, SubmitResultDto}
use foosball_api.Matches.MatchService.{is_creator}
use foosball_api.Matches.Requests.{
  Caller, Request, create_match, delete_match, add_players, submit_result, confirm_result,
  cancel_confirmation, admin_delete_match,
}

-- a match that exists
pub record Stage : Type 0 where
  pub status : MatchStatus
  pub creator : Option ℕ

abbrev pub stage : MatchRow → Stage
stage r = record { status = r.status; creator = r.created_by }

abbrev pub stage_of : Option MatchRow → Option Stage
stage_of none = none
stage_of (some r) = some (stage r)

-- What a request of the caller may do to the match `m`. A result is submitted for a match that is
-- playing; where `addPlayers` has stored the players but not the start, it is a draft still.
pub data Move (m : ℕ) (c : Caller) (x y : Option Stage) : Request → Type 0 where
  stay : (q : Request) → y ≡ x → Move m c x y q
  begin :
      (dto : CreateMatchDto)
      → x ≡ none
      → y ≡ some (record { status = draft; creator = some c.sub })
      → Move m c x y (create_match dto)
  start :
      (s : Stage) (dto : AddPlayersDto)
      → x ≡ some s
      → s.status ≡ draft
      → is_creator s.creator c.sub ≡ true
      → y ≡ some (record s { status = playing })
      → Move m c x y (add_players m dto)
  submit :
      (s : Stage) (dto : SubmitResultDto)
      → x ≡ some s
      → is_locked s.status ≡ false
      → is_creator s.creator c.sub ≡ true
      → y ≡ some (record s { status = awaiting_confirmation })
      → Move m c x y (submit_result m dto)
  confirm :
      (s : Stage)
      → x ≡ some s
      → s.status ≡ awaiting_confirmation
      → y ≡ some (record s { status = confirmed })
      → Move m c x y (confirm_result m)
  reopen :
      (s : Stage)
      → x ≡ some s
      → s.status ≡ awaiting_confirmation
      → is_creator s.creator c.sub ≡ true
      → y ≡ some (record s { status = playing })
      → Move m c x y (cancel_confirmation m)
  remove : (s : Stage) → c.is_admin ≡ true → x ≡ some s → y ≡ none → Move m c x y (delete_match m)
  remove_any :
      (s : Stage) → c.is_admin ≡ true → x ≡ some s → y ≡ none → Move m c x y (admin_delete_match m)

-- the moves of a history of requests, one for each
pub data Moves (m : ℕ) : List (ℕ × Caller × Request) → Option Stage → Option Stage → Type 0 where
  here : (x : Option Stage) → Moves m [] x x
  next :
      (now : ℕ) (c : Caller) (q : Request) {qs : List (ℕ × Caller × Request)} {x y z : Option Stage}
      → Move m c x y q
      → Moves m qs y z
      → Moves m ((now, c, q) ∷ qs) x z
