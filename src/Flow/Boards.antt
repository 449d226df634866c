-- ===== src/Flow/Boards.antt =====
-- A quorum on its way to the leaderboards.
use foosball_api.Prelude.{
  Every, Every-of, ℕ, ◌≤◌, ◌≡◌, ◌≢◌, ◌⊎◌, inl, inr, refl, ◌∙◌, true, ◌&&◌, Option, none, some,
  String, List, [], ◌∷◌, ◌++◌, Memᴰ, ◌==◌, any, count, length, get_or, arith,
}
use foosball_api.Http.{ok}
use foosball_api.Events.{TimeFilter, total}
use foosball_api.Matches.Entity.{MatchRow, MatchPlayer, is_awaiting}
use foosball_api.Matches.Orm.{Orm, OrmLaws}
use foosball_api.Matches.World.{World}
use foosball_api.Matches.Confirmation.{ConfirmationStatusResult, is_player, confirm, confirm_row}
use foosball_api.Matches.Confirmation.Ends.{
  confirm_ends, ConfirmEnds, confirmed_job, invalidate_job,
}
use foosball_api.Redis.{Cache, Redis, RedisLaws}
use foosball_api.Leaderboard.{
  users, hit, miss, bypass, cache_key, Json, CachedResult, LeaderboardResult, UserWinEntry,
  UserRank, user_rank, ranked_from, get_leaderboard, get_user_leaderboard,
}
use foosball_api.Leaderboard.Caching.{always_answers}
use foosball_api.Leaderboard.Queries.{
  Base, Named, since, RowOrder, same_named, get_start_date, get_user_wins,
}
use foosball_api.Leaderboard.Queries.Counting.{any-Mem, any-count}
use foosball_api.Leaderboard.Queries.Ranking.{RowOrderLaws}
use foosball_api.Leaderboard.Queries.UserRows.{Keyed, known}
use foosball_api.Leaderboard.Queries.UserWins.{user_wins_top}
use foosball_api.Leaderboard.Queries.Wins.{ahead, in_period, won, matches_won}
use foosball_api.Leaderboard.Routes.{LeaderboardQueryDto, get_leaderboard_users}
use foosball_api.Leaderboard.Routes.Fresh.{
  length-ranked_from, Every-ranked_from, count-ranked_from, Answered-fresh,
}
use foosball_api.Flow.{consume, Shows}
use foosball_api.Flow.Jobs.{consume-clears}

-- where the cache holds nothing, an answer is no hit
not-hit :
    {redis : Redis} (laws : RedisLaws redis) (json : Json (CachedResult UserRank)) (now : ℕ)
    (query : TimeFilter → ℕ → List UserWinEntry) (filter : TimeFilter) (limit : ℕ) (c : Cache)
    → c.lookup (cache_key users filter) ≡ none
    → (get_leaderboard user_rank redis json now users query filter limit c).0.cache_status ≢ hit
not-hit {redis} laws json now query filter limit c empty is_hit =
    elim (always_answers redis user_rank json now users query filter limit c) [
      | inl (text, got, nonempty, parsed, status, same) ↦
          absurd (some-not-none (laws.get (cache_key users filter) c (some text) got ∙ empty))
      | inr (inl (own, none_held, kept)) ↦ absurd (miss-not-hit own is_hit)
      | inr (inr (own, reason, kept)) ↦ absurd (bypass-not-hit own is_hit)
    ]
  where
    some-not-none : {t : String} → some t ≡ none → ⊥
    some-not-none e = cc

    miss-not-hit :
        {a : LeaderboardResult UserRank} {x : CachedResult UserRank}
        → a ≡ record { result = x; cache_status = miss }
        → a.cache_status ≡ hit
        → ⊥
    miss-not-hit own e = cc

    bypass-not-hit :
        {a : LeaderboardResult UserRank} {x : CachedResult UserRank}
        → a ≡ record { result = x; cache_status = bypass }
        → a.cache_status ≡ hit
        → ⊥
    bypass-not-hit own e = cc

-- a winner of a match of the tables has won one at least
winner-won :
    (base : Base) (start : Option ℕ) (r : MatchRow) (p : MatchPlayer)
    → Memᴰ r base.matches
    → Memᴰ p base.players
    → (p.match_id == r.id) ≡ true
    → in_period start r ≡ true
    → ahead r.score_a r.score_b p.team ≡ true
    → 1 ≤ matches_won base start p.user_id
unfolding matches_won won
winner-won base start r p listed playing own period winner =
    let v = p.user_id in
    let test = λ (q : MatchPlayer).
      q.match_id == r.id && q.user_id == v && ahead r.score_a r.score_b q.team in
    let played : any test base.players ≡ true =
      any-Mem test (ground (arith, own, winner)) base.players playing in
    let counted = λ (m : MatchRow). in_period start m && won base v m in
    any-count counted base.matches
      (any-Mem counted (ground (arith, period, played)) base.matches listed)

-- The rows of a board on which a user stands: exactly once, with these wins; or the board is full
-- of rows with at least as many.
abbrev pub OnBoard : ℕ → String → ℕ → ℕ → List UserRank → Type 0
OnBoard v x wins limit rows =
    (count (λ (k : UserRank). same_named (v, x) (k.user_id, k.display_name) && k.wins == wins) rows
      ≡ 1)
    ⊎ ((length rows ≡ limit) × Every (λ (k : UserRank). wins ≤ k.wins) rows)

top-OnBoard :
    {base : Base} (keys : Keyed base) {order : RowOrder Named} (laws : RowOrderLaws order) (now : ℕ)
    (filter : TimeFilter) (limit v : ℕ) (x : String)
    → known base v x ≡ true
    → 1 ≤ matches_won base (get_start_date now filter) v
    → OnBoard v x
        (matches_won base (get_start_date now filter) v)
        limit
        (ranked_from user_rank 0 (get_user_wins base order now filter limit))
top-OnBoard {base} keys {order} laws now filter limit v x there some_wins =
    let entries = get_user_wins base order now filter limit in
    let wins = matches_won base (get_start_date now filter) v in
    elim (user_wins_top keys laws now filter limit v x there some_wins) [
      | inl once ↦ inl (
          count-ranked_from user_rank
            (λ (k : UserRank). same_named (v, x) (k.user_id, k.display_name) && k.wins == wins)
            (λ (e : UserWinEntry). same_named (v, x) (e.user_id, e.display_name) && e.wins == wins)
            (λ n e. refl) 0 entries
          ∙ once)
      | inr (full, above) ↦ inr (
        length-ranked_from user_rank 0 entries ∙ full,
        Every-ranked_from user_rank (λ (k : UserRank). wins ≤ k.wins) 0 entries
            (Every-of (λ e h n. h) entries above),
      )
    ]

-- A vote that reaches the quorum leaves the confirmed row and, as the last job, the invalidation.
quorum-leaves :
    (now m : ℕ) (r : MatchRow) (w w' : World) {answer : ConfirmationStatusResult}
    → answer.quorum_reached ≡ true
    → ConfirmEnds now m r w (ok answer, w')
    → (w'.db.find_row m ≡ some (confirm_row now r))
      × (w'.jobs
          ≡ (w.jobs ++ confirmed_job now m (confirm_row now r) ∷ []) ++ invalidate_job now ∷ [])
quorum-leaves now m r w w' reached (answered, row, jobs) = (rw reached at row, rw reached at jobs)

module _ {o : Orm} (orm_laws : OrmLaws o) {redis : Redis} (redis_laws : RedisLaws redis)
    (json : Json (CachedResult UserRank)) {base : Base} (keys : Keyed base) {order : RowOrder Named}
    (order_laws : RowOrderLaws order) (now later m user : ℕ) (r : MatchRow) (w : World)
    {answer : ConfirmationStatusResult} {w' : World} (c : Cache) {c' : Cache}
    (dto : LeaderboardQueryDto) (p : MatchPlayer) (x : String) where
  -- A player's vote on an awaiting match reaches the quorum; the worker, with the default prefix,
  -- then does all jobs of the leaderboards' queue; and the leaderboards read tables that have
  -- their primary keys and show the match. Then the next answer of the users' route, in a period
  -- that holds the time of the vote, is no cache hit, and a player of the team with the greater
  -- score, under the stored name, stands on it exactly once, with all matches won in the period,
  -- this one among them; or the board is full of rows with at least as many.
  pub quorum_reaches_board :
      w.db.find_row m ≡ some r
      → r.id ≡ m
      → is_awaiting r.status ≡ true
      → is_player user (w.db.find_players m) ≡ true
      → confirm o now m user w ≡ (ok answer, w')
      → answer.quorum_reached ≡ true
      → consume "leaderboard" redis w'.jobs c ≡ (ok tt, c')
      → Shows base w'.db m
      → since (get_start_date later (get_or dto.filter total)) (some now) ≡ true
      → Memᴰ p (w'.db.find_players m)
      → (p.match_id == r.id) ≡ true
      → ahead r.score_a r.score_b p.team ≡ true
      → known base p.user_id x ≡ true
      → let start = get_start_date later (get_or dto.filter total) in
        let reply =
          (get_leaderboard_users redis json later (get_user_wins base order later) dto c').0 in
        (reply.x_cache ≢ hit)
        × (1 ≤ matches_won base start p.user_id)
        × OnBoard p.user_id x (matches_won base start p.user_id) (get_or dto.limit 20) reply.rows
  unfolding get_leaderboard_users get_user_leaderboard
  quorum_reaches_board found keyed awaiting player confirmed reached done shown period played own
        winner there =
      let filter = get_or dto.filter total in
      let limit = get_or dto.limit 20 in
      let query = get_user_wins base order later in
      let ends =
        rw confirmed at (confirm_ends orm_laws now m user r w found keyed awaiting player) in
      let (row, jobs) = quorum-leaves now m r w w' reached ends in
      let empty =
        consume-clears redis_laws now users filter
          (w.jobs ++ confirmed_job now m (confirm_row now r) ∷ []) c (rw jobs at done) in
      let fresh_answer = not-hit redis_laws json later query filter limit c' empty in
      let some_wins =
        winner-won base (get_start_date later filter) (confirm_row now r) p (shown.row _ row)
          (shown.players p played) own period winner in
      let own_rows =
        Answered-fresh redis json later query filter limit c' _
          (always_answers redis user_rank json later users query filter limit c') fresh_answer in
      (
        fresh_answer,
        some_wins,
        rw own_rows (top-OnBoard keys order_laws later filter limit p.user_id x there some_wins),
      )
