-- ===== src/Matches/MatchService.antt =====
-- services/match.service.ts: creating, changing and deleting a match, its players and its result.
pub mod Capacity
use foosball_api.Prelude.{
  ℕ, ◌+◌, Bool, true, false, not, ◌&&◌, Option, none, some, List, [], ◌∷◌, ltb, ◌==◌, map, length,
  any, if◌then◌else◌,
}
use foosball_api.Http.{
  match_not_found, forbidden_not_creator, match_locked, forbidden_admin_required, capacity_exceeded,
  slot_conflict, insufficient_players, bad_request, forbidden, not_found, conflict,
}
use foosball_api.Action.{Action, pure, gets, or_throw, ◌>>=◌, ◌>>◌, throw_if, when}
use foosball_api.Events.{EventEnvelope, Payload, match_result_submitted, queue_matches}
use foosball_api.Matches.Entity.{
  MatchType, one_v_one, two_v_two, four_v_four, draft, playing, awaiting_confirmation, MatchPlayer,
  Match, is_draft, is_locked, match_type_text, same_team,
}
use foosball_api.Matches.Dto.{
  CreateMatchDto, created_type, UpdateMatchDto, PlayerDto, AddPlayersDto, SubmitResultDto,
}
use foosball_api.Matches.Orm.{Orm}
use foosball_api.Matches.World.{World}
use foosball_api.Matches.World as Repo

-- `MATCH_CAPACITY`
unfoldable pub match_capacity : MatchType → ℕ
match_capacity one_v_one = 2
match_capacity two_v_two = 4
match_capacity four_v_four = 8

-- `match.createdBy === userId`, where the column may be null
abbrev pub is_creator : Option ℕ → ℕ → Bool
is_creator none u = false
is_creator (some c) u = c == u

-- `if (x !== undefined) field = x`, where `x` may be null
abbrev pub set_if : Option (Option ℕ) → Option ℕ → Option ℕ
set_if none old = old
set_if (some x) old = x

unfoldable pub slot_taken : PlayerDto → List MatchPlayer → Bool
slot_taken p = any (λ ep. same_team ep.team p.team && ep.slot == p.slot)

-- the loop over `dto.players`
unfoldable pub any_slot_taken : List PlayerDto → List MatchPlayer → Bool
unfolding slot_taken
any_slot_taken [] existing = false
any_slot_taken (p ∷ ps) existing =
    let rest = any_slot_taken ps existing in if slot_taken p existing then true else rest

abbrev pub to_player : ℕ → PlayerDto → MatchPlayer
to_player m p = record {
  match_id = m;
  user_id = p.user_id;
  team = p.team;
  slot = p.slot;
  position = p.position;
}

unfoldable pub find_by_id : ℕ → Action World Match
find_by_id m = do found ← gets (Repo.find_by_id m); or_throw found (not_found match_not_found)

abbrev pub with_scores : Match → Option ℕ → Option ℕ → Match
with_scores e sa sb = record e { row = record (e.row) { score_a = sa; score_b = sb } }

module _ (o : Orm) where
  unfoldable pub create : ℕ → CreateMatchDto → Action World Match
  create user dto = do
    e ← Repo.create o user (created_type dto) draft
    pure (record e { players = some [] })

  unfoldable pub update : ℕ → ℕ → UpdateMatchDto → Action World Match
  unfolding find_by_id
  update m user dto = do
    e ← find_by_id m
    throw_if (not (is_creator e.created_by user)) (forbidden forbidden_not_creator)
    throw_if (is_locked e.status) (conflict match_locked)
    let e' = with_scores e (set_if dto.score_a e.score_a) (set_if dto.score_b e.score_b)
    Repo.save o e'
    players ← gets (Repo.find_players m)
    pure (record e' { players = some players })

  unfoldable pub delete : ℕ → ℕ → Bool → Action World (Unit {0})
  delete m user is_admin = do
    throw_if (not is_admin) (forbidden forbidden_admin_required)
    found ← gets (Repo.find_by_id m)
    e ← or_throw found (not_found match_not_found)
    Repo.delete o m

  unfoldable pub add_players : ℕ → ℕ → AddPlayersDto → Action World Match
  unfolding find_by_id match_capacity any_slot_taken
  add_players m user dto = do
    e ← find_by_id m
    throw_if (not (is_creator e.created_by user)) (forbidden forbidden_not_creator)
    throw_if (is_locked e.status) (conflict match_locked)
    existing ← gets (Repo.find_players m)
    throw_if (ltb (match_capacity e.match_type) (length existing + length dto.players))
        (bad_request capacity_exceeded)
    throw_if (any_slot_taken dto.players existing) (bad_request slot_conflict)
    Repo.save_players o (map (to_player m) dto.players)
    all_players ← gets (Repo.find_players m)
    let start = is_draft e.status && ltb 0 (length all_players)
    let e' = if start then record e { row = record (e.row) { status = playing } } else e
    when start (Repo.save o e')
    pure (record e' { players = some all_players })

  unfoldable pub submit_result : ℕ → ℕ → ℕ → SubmitResultDto → Action World Match
  unfolding find_by_id match_capacity
  submit_result now m user dto = do
    e ← find_by_id m
    throw_if (not (is_creator e.created_by user)) (forbidden forbidden_not_creator)
    throw_if (is_locked e.status) (conflict match_locked)
    players ← gets (Repo.find_players m)
    throw_if (ltb (length players) (match_capacity e.match_type)) (bad_request insufficient_players)
    let e' : Match = record e {
      row = record (e.row) {
        score_a = some dto.score_a;
        score_b = some dto.score_b;
        status = awaiting_confirmation;
      };
    }
    Repo.save o e'
    let event : EventEnvelope Payload = record {
      event_type = "match.result_submitted";
      version = 1;
      occurred_at = now;
      payload = match_result_submitted (record {
        match_id = m;
        match_type = match_type_text e'.match_type;
        score_a = dto.score_a;
        score_b = dto.score_b;
      });
    }
    Repo.publish o queue_matches "match.result_submitted" event
    pure (record e' { players = some players })
