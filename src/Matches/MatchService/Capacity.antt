-- ===== src/Matches/MatchService/Capacity.antt =====
-- How many players a match has, when they are added and when its result is submitted.
use foosball_api.Prelude.{
  ℕ, ◌+◌, ◌≤◌, ◌≡◌, ◌≢◌, ap, sym, refl, true, false, some, none, List, [], ◌∷◌, inl, inr, arith,
  ltb, ◌&&◌, ◌⊎◌, Option-cases, Bool-cases, length, map, count-le-length,
}
use foosball_api.Http.{ok}
use foosball_api.Matches.Entity.{MatchRow, Match, awaiting_confirmation, is_locked, is_draft}
use foosball_api.Matches.Dto.{PlayerDto, AddPlayersDto, SubmitResultDto}
use foosball_api.Matches.Orm.{Tables, Orm, OrmLaws, of_match}
use foosball_api.Matches.World.{World}
use foosball_api.Matches.MatchService.{
  match_capacity, is_creator, any_slot_taken, to_player, add_players, submit_result,
}
use foosball_api.Matches.Invariant.Outcomes.{submitted, started, add_refused}

length-to_player : (m : ℕ) (ps : List PlayerDto) → length (map (to_player m) ps) ≡ length ps
length-to_player m [] = refl
length-to_player m (p ∷ ps) = ground (arith, length-to_player m ps)

-- what the success of `submit_result` tells of the state before it
submit_result-guards :
    (o : Orm) (now m user : ℕ) (dto : SubmitResultDto) (r : MatchRow) (w : World) {e : Match}
    {w' : World}
    → w.db.find_row m ≡ some r
    → submit_result o now m user dto w ≡ (ok e, w')
    → (is_creator r.created_by user ≡ true)
      × (is_locked r.status ≡ false)
      × (match_capacity r.match_type ≤ length (w.db.find_players m))
      × (o.save_match (submitted r dto) (some (w.db.find_players m)) w.db ≡ some w'.db)
unfolding submit_result
submit_result-guards o now m user dto r w found sent =
    elim (Option-cases (o.save_match (submitted r dto) (some (w.db.find_players m)) w.db)) [
      | inl failed ↦ ground arith
      | inr (d, saved) ↦ ground arith
    ]

-- A result is accepted only from the creator, of a match that is not locked and has at least as
-- many players as its type asks for; then the match awaits confirmation with those scores, its
-- other columns and its players as they were.
pub submit_result_ends :
    {o : Orm} (laws : OrmLaws o) (now m user : ℕ) (dto : SubmitResultDto) (r : MatchRow) (w : World)
    {e : Match} {w' : World}
    → w.db.find_row m ≡ some r
    → r.id ≡ m
    → submit_result o now m user dto w ≡ (ok e, w')
    → (is_creator r.created_by user ≡ true)
      × (is_locked r.status ≡ false)
      × (match_capacity r.match_type ≤ length (w'.db.find_players m))
      × (w'.db.find_row m
          ≡ some (record r {
            score_a = some dto.score_a;
            score_b = some dto.score_b;
            status = awaiting_confirmation;
          }))
      × (w'.db.find_players m ≡ w.db.find_players m)
submit_result_ends {o} laws now m user dto r w {w' = w'} found keyed sent =
    let (own, unlocked, enough, saved) = submit_result-guards o now m user dto r w found sent in
    let effect = laws.save_match (submitted r dto) (some (w.db.find_players m)) w.db w'.db saved in
    let kept = effect.players (inr (ap (λ i. some (w.db.find_players i)) (sym keyed))) m in
    (own, unlocked, rw kept enough, ground (arith, effect.row m, keyed), kept)

-- the guards that let a request through, its first write, and the players of its answer
abbrev AddedThrough : Orm → ℕ → ℕ → AddPlayersDto → MatchRow → World → Match → Tables → Type 0
AddedThrough o m user dto r w e d =
    (is_creator r.created_by user ≡ true)
    × (is_locked r.status ≡ false)
    × (length (w.db.find_players m) + length dto.players ≤ match_capacity r.match_type)
    × (any_slot_taken dto.players (w.db.find_players m) ≡ false)
    × (o.save_players (map (to_player m) dto.players) w.db ≡ some d)
    × (e.players ≡ some (d.find_players m))

add_players-let_through :
    (o : Orm) (m user : ℕ) (dto : AddPlayersDto) (r : MatchRow) (w : World) {e : Match} {w' : World}
    → w.db.find_row m ≡ some r
    → add_players o m user dto w ≡ (ok e, w')
    → add_refused o m user w dto r ≡ false
unfolding add_players
add_players-let_through o m user dto r w found sent =
    elim (Bool-cases (add_refused o m user w dto r)) [
      | inr through ↦ through
      | inl refused ↦ ground arith
    ]

add_players-saves :
    (o : Orm) (m user : ℕ) (dto : AddPlayersDto) (r : MatchRow) (w : World) {e : Match} {w' : World}
    → w.db.find_row m ≡ some r
    → add_players o m user dto w ≡ (ok e, w')
    → o.save_players (map (to_player m) dto.players) w.db ≢ none
unfolding add_players
add_players-saves o m user dto r w found sent failed = ground arith

add_players-answers :
    (o : Orm) (m user : ℕ) (dto : AddPlayersDto) (r : MatchRow) (w : World) {e : Match} {w' : World}
    {d : Tables}
    → w.db.find_row m ≡ some r
    → o.save_players (map (to_player m) dto.players) w.db ≡ some d
    → add_players o m user dto w ≡ (ok e, w')
    → e.players ≡ some (d.find_players m)
unfolding add_players
add_players-answers o m user dto r w found saved sent = ground arith

-- what the success of `add_players` tells of the state before it and of its first write
add_players-guards :
    (o : Orm) (m user : ℕ) (dto : AddPlayersDto) (r : MatchRow) (w : World) {e : Match} {w' : World}
    → w.db.find_row m ≡ some r
    → add_players o m user dto w ≡ (ok e, w')
    → (d : Tables) × AddedThrough o m user dto r w e d
add_players-guards o m user dto r w found sent =
    elim (Option-cases (o.save_players (map (to_player m) dto.players) w.db)) [
      | inl failed ↦ absurd (add_players-saves o m user dto r w found sent failed)
      | inr (d, saved) ↦
          let through = add_players-let_through o m user dto r w found sent in
          let answer = add_players-answers o m user dto r w found saved sent in
          (d, ground (arith, through, answer))
    ]

-- The tables are those of the request's write, or for a draft that now has a player those after
-- the save of its start, which has the players of before the request loaded.
abbrev pub StoredOrStarted : Orm → ℕ → MatchRow → World → Tables → Tables → Type 0
StoredOrStarted o m r w d d' =
    ((is_draft r.status && ltb 0 (length (d.find_players m)) ≡ false) × (d' ≡ d))
    ⊎ ((is_draft r.status && ltb 0 (length (d.find_players m)) ≡ true)
        × (o.save_match (started r) (some (w.db.find_players m)) d ≡ some d'))

add_players-tables :
    (o : Orm) (m user : ℕ) (dto : AddPlayersDto) (r : MatchRow) (w : World) {e : Match} {w' : World}
    {d : Tables}
    → w.db.find_row m ≡ some r
    → o.save_players (map (to_player m) dto.players) w.db ≡ some d
    → add_players o m user dto w ≡ (ok e, w')
    → StoredOrStarted o m r w d w'.db
unfolding add_players
add_players-tables o m user dto r w {d = d} found saved sent =
    elim (Bool-cases (is_draft r.status && ltb 0 (length (d.find_players m)))) [
      | inr not_started ↦ inl (not_started, ground arith)
      | inl starts ↦ elim (Option-cases (o.save_match (started r) (some (w.db.find_players m)) d)) [
        | inl failed ↦ absurd (ground arith)
        | inr (d', written) ↦ inr (starts, ground arith)
      ]
    ]

-- Players are added only by the creator, to a match that is not locked, where no given slot is
-- taken. The request's write of the players succeeds, and the answer holds the players that are
-- stored for the match after it, which are at most as many as the match's type has room for. The
-- tables that the request leaves are those of that write; or, for a draft that now has a player,
-- those after the save of its row with the status `playing`, which has the players of before
-- the request loaded.
pub add_players_ends :
    {o : Orm} (laws : OrmLaws o) (m user : ℕ) (dto : AddPlayersDto) (r : MatchRow) (w : World)
    {e : Match} {w' : World}
    → w.db.find_row m ≡ some r
    → add_players o m user dto w ≡ (ok e, w')
    → (is_creator r.created_by user ≡ true)
      × (is_locked r.status ≡ false)
      × (any_slot_taken dto.players (w.db.find_players m) ≡ false)
      × (d : Tables) × (o.save_players (map (to_player m) dto.players) w.db ≡ some d)
      × (e.players ≡ some (d.find_players m))
      × (length (d.find_players m) ≤ match_capacity r.match_type)
      × StoredOrStarted o m r w d w'.db
add_players_ends laws m user dto r w found sent =
    let (d, through) = add_players-guards _ m user dto r w found sent in
    let (own, unlocked, room, free, saved, answer) = through in
    let new = map (to_player m) dto.players in
    (
      own,
      unlocked,
      free,
      d,
      saved,
      answer,
      omega (
        arith,
        (laws.save_players new w.db d saved).bound m,
        count-le-length (of_match m) new,
        length-to_player m dto.players,
        room,
      ),
      add_players-tables _ m user dto r w found saved sent,
    )
