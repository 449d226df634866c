-- ===== src/Leaderboard/Routes/Fresh.antt =====
-- What the leaderboard's routes answer where the cache did not.
use foosball_api.Prelude.{
  Every, Every-of, Bool, count, ℕ, suc, ◌≤◌, ◌≡◌, ◌≢◌, refl, ap, inl, inr, true, Option, none, some,
  List, [], ◌∷◌, length, get_or, arith,
}
use foosball_api.Events.{TimeFilter, total}
use foosball_api.Redis.{Cache, Redis}
use foosball_api.Leaderboard.{
  users, hit, Json, CachedResult, LeaderboardResult, UserWinEntry, UserRank, user_rank, fresh,
  ranked_from, get_leaderboard, get_user_leaderboard,
}
use foosball_api.Leaderboard.Caching.{Answered, always_answers}
use foosball_api.Leaderboard.Queries.{Base, Named, RowOrder, get_start_date, get_user_wins}
use foosball_api.Leaderboard.Queries.Ranking.{RowOrderLaws}
use foosball_api.Leaderboard.Queries.Wins.{matches_won}
use foosball_api.Leaderboard.Queries.UserWins.{user_wins_are_counted}
use foosball_api.Leaderboard.Queries.UserRows.{Keyed}
use foosball_api.Leaderboard.Routes.{LeaderboardQueryDto, limit_valid, get_leaderboard_users}

pub length-ranked_from :
    {W E : Type 0} (f : ℕ → W → E) (i : ℕ) (xs : List W) → length (ranked_from f i xs) ≡ length xs
unfolding ranked_from
length-ranked_from f i [] = refl
length-ranked_from f i (x ∷ xs) = ap suc (length-ranked_from f (suc i) xs)

pub Every-ranked_from :
    {W E : Type 0} (f : ℕ → W → E) (P : E → Type 0) (i : ℕ) (xs : List W)
    → Every (λ x. (n : ℕ) → P (f n x)) xs
    → Every P (ranked_from f i xs)
unfolding ranked_from
Every-ranked_from f P i [] h = tt
Every-ranked_from f P i (x ∷ xs) (h, hs) = (h (suc i), Every-ranked_from f P (suc i) xs hs)

pub count-ranked_from :
    {W E : Type 0} (f : ℕ → W → E) (p : E → Bool) (q : W → Bool)
    → ((n : ℕ) (x : W) → p (f n x) ≡ q x)
    → (i : ℕ) (xs : List W) → count p (ranked_from f i xs) ≡ count q xs
unfolding ranked_from
count-ranked_from f p q same i [] = refl
count-ranked_from f p q same i (x ∷ xs) =
    ground (arith, same (suc i) x, count-ranked_from f p q same (suc i) xs)

pub Answered-fresh :
    (redis : Redis) (json : Json (CachedResult UserRank)) (now : ℕ)
    (query : TimeFilter → ℕ → List UserWinEntry) (filter : TimeFilter) (limit : ℕ) (c : Cache)
    (r : LeaderboardResult UserRank × Cache)
    → Answered redis user_rank json now users query filter limit c r
    → r.0.cache_status ≢ hit
    → r.0.result ≡ fresh user_rank now filter (query filter limit)
Answered-fresh redis json now query filter limit c (answer, c')
      (inl (text, got, nonempty, parsed, status, same)) not_hit =
    absurd (not_hit status)
Answered-fresh redis json now query filter limit c (answer, c') (inr (inl (own, empty, kept)))
      not_hit =
    ap (λ (x : LeaderboardResult UserRank). x.result) own
Answered-fresh redis json now query filter limit c (answer, c') (inr (inr (own, reason, kept)))
      not_hit =
    ap (λ (x : LeaderboardResult UserRank). x.result) own

module _ (redis : Redis) (json : Json (CachedResult UserRank)) {base : Base} (keys : Keyed base)
    {order : RowOrder Named} (laws : RowOrderLaws order) (now : ℕ) (dto : LeaderboardQueryDto)
    (c : Cache) where
  -- Where the tables have their primary keys, the order of rows keeps them and sorts them by
  -- falling wins, and the limit is valid: if the answer of the users' route has not the header
  -- `X-Cache: HIT`, its rows are numbered from 1 in the order of the query over the tables as they
  -- are; each row's wins are the number of matches that its user won in the period of the filter,
  -- which is `total` where none is given; and there are at most as many rows as asked for, 20 where
  -- no limit is given, and never more than 100.
  pub fresh_board_counts :
      limit_valid dto.limit ≡ true
      → (get_leaderboard_users redis json now (get_user_wins base order now) dto c).0.x_cache ≢ hit
      → ((get_leaderboard_users redis json now (get_user_wins base order now) dto c).0.rows
          ≡ ranked_from user_rank 0
              (get_user_wins base order now (get_or dto.filter total) (get_or dto.limit 20)))
        × Every
            (λ (r : UserRank).
              r.wins ≡ matches_won base (get_start_date now (get_or dto.filter total)) r.user_id)
            (get_leaderboard_users redis json now (get_user_wins base order now) dto c).0.rows
        × (length (get_leaderboard_users redis json now (get_user_wins base order now) dto c).0.rows
            ≤ get_or dto.limit 20)
        × (get_or dto.limit 20 ≤ 100)
  unfolding get_leaderboard_users get_user_leaderboard
  fresh_board_counts valid not_hit =
      let filter = get_or dto.filter total in
      let limit = get_or dto.limit 20 in
      let wins = get_user_wins base order now filter limit in
      let (counted, sorted, short) = user_wins_are_counted keys laws now filter limit in
      let own : (get_leaderboard_users redis json now (get_user_wins base order now) dto c).0.rows
          ≡ ranked_from user_rank 0 wins =
        ap (λ (x : CachedResult UserRank). x.rows)
          (Answered-fresh redis json now (get_user_wins base order now) filter limit c
            (get_leaderboard user_rank redis json now users (get_user_wins base order now) filter
              limit c)
            (always_answers redis user_rank json now users (get_user_wins base order now) filter
              limit c)
            not_hit) in
      (
        own,
        rw own (
            Every-ranked_from user_rank _ 0 wins
              (Every-of (λ e (same, positive, stored) n. same) wins counted)),
        omega (arith, ap length own, length-ranked_from user_rank 0 wins, short),
        in_range dto.limit valid,
      )
    where
      in_range : (limit : Option ℕ) → limit_valid limit ≡ true → get_or limit 20 ≤ 100
      in_range none h = omega arith
      in_range (some n) h = ground (arith, h)
