-- ===== src/Leaderboard.antt =====
-- libs/leaderboard: leaderboard.service.ts over the queries of leaderboard.repository.ts, which
-- are parameters here, and Redis.
pub mod Caching
pub mod Queries
pub mod Routes
mod Tests
use Prim.Native.String.{◌++◌}
use text.Mathlib.Text.{◌==◌ as str_eq}
use foosball_api.Prelude.{
  ℕ, suc, Bool, true, false, Option, none, some, String, List, [], ◌∷◌, map, if◌then◌else◌,
}
use foosball_api.Events.{TimeFilter, week, month, year, total}
use foosball_api.Redis.{Cache, Redis}

pub data Scope : Type 0 where
  users pairs : Scope

pub data CacheStatus : Type 0 where
  hit miss bypass : CacheStatus

abbrev pub filter_text : TimeFilter → String
filter_text week = "week"
filter_text month = "month"
filter_text year = "year"
filter_text total = "total"

abbrev pub scope_text : Scope → String
scope_text users = "users"
scope_text pairs = "pairs"

-- `CACHE_TTL`, in seconds
unfoldable pub cache_ttl : TimeFilter → ℕ
cache_ttl week = 300
cache_ttl month = 300
cache_ttl year = 3600
cache_ttl total = 3600

abbrev pub cache_key : Scope → TimeFilter → String
cache_key scope filter = "leaderboard:" ++ scope_text scope ++ ":" ++ filter_text filter

-- `JSON.stringify` and `JSON.parse` at the cached objects; `parse` may throw
pub record Json (A : Type 0) : Type 0 where
  pub stringify : A → String
  pub parse : String → Option A

-- what is cached: the result without its cache status
pub record CachedResult (E : Type 0) : Type 0 where
  pub filter : TimeFilter
  pub rows : List E
  pub generated_at : ℕ

pub record LeaderboardResult (E : Type 0) : Type 0 where
  pub result : CachedResult E
  pub cache_status : CacheStatus

pub record UserWinEntry : Type 0 where
  pub user_id : ℕ
  pub display_name : String
  pub wins : ℕ

pub record UserRank : Type 0 where
  pub rank : ℕ
  pub user_id : ℕ
  pub display_name : String
  pub wins : ℕ

pub record PairWinEntry : Type 0 where
  pub user_a_id : ℕ
  pub user_a_name : String
  pub user_b_id : ℕ
  pub user_b_name : String
  pub wins : ℕ

pub record PairRank : Type 0 where
  pub rank : ℕ
  pub user_a : ℕ × String
  pub user_b : ℕ × String
  pub wins : ℕ

abbrev pub user_rank : ℕ → UserWinEntry → UserRank
user_rank n e = record {
  rank = n;
  user_id = e.user_id;
  display_name = e.display_name;
  wins = e.wins;
}

abbrev pub pair_rank : ℕ → PairWinEntry → PairRank
pair_rank n e = record {
  rank = n;
  user_a = (e.user_a_id, e.user_a_name);
  user_b = (e.user_b_id, e.user_b_name);
  wins = e.wins;
}

module _ {W E : Type 0} (to_rank : ℕ → W → E) where
  -- `data.map((entry, i) => ({ rank: i + 1, ... }))`, from the index `i` on
  unfoldable pub ranked_from : ℕ → List W → List E
  ranked_from i [] = []
  ranked_from i (e ∷ es) = to_rank (suc i) e ∷ ranked_from (suc i) es

  abbrev pub fresh : ℕ → TimeFilter → List W → CachedResult E
  fresh now filter wins = record { filter = filter; rows = ranked_from 0 wins; generated_at = now }

  -- the query, and the attempt to cache its result, whose failure is only logged
  unfoldable pub query_and_store :
      Redis
      → Json (CachedResult E)
      → ℕ
      → String
      → TimeFilter
      → List W
      → Cache
      → LeaderboardResult E × Cache
  unfolding cache_ttl
  query_and_store redis json now key filter wins c =
      let result = fresh now filter wins in
      let answer : LeaderboardResult E = record { result = result; cache_status = miss } in
      elim (redis.set_ex key (json.stringify result) (cache_ttl filter) c) [
        | none ↦ (answer, c)
        | some c' ↦ (answer, c')
      ]

  -- The two methods differ in their scope and rows alone. `query` is the repository's, at the
  -- limit that it is given.
  unfoldable pub get_leaderboard :
      Redis
      → Json (CachedResult E)
      → ℕ
      → Scope
      → (TimeFilter → ℕ → List W)
      → TimeFilter
      → ℕ
      → Cache
      → LeaderboardResult E × Cache
  get_leaderboard redis json now scope query filter limit c =
      let key = cache_key scope filter in
      let wins = query filter limit in
      let bypassed : LeaderboardResult E = record {
        result = fresh now filter wins;
        cache_status = bypass;
      } in
      elim (redis.get key c) [
        | none ↦ (bypassed, c)
        | some none ↦ query_and_store redis json now key filter wins c
        | some (some text) ↦
            if str_eq text ""
            then query_and_store redis json now key filter wins c
            else elim (json.parse text) [
              | none ↦ (bypassed, c)
              | some cached ↦ (record { result = cached; cache_status = hit }, c)
            ]
      ]

unfoldable pub get_user_leaderboard :
    Redis
    → Json (CachedResult UserRank)
    → ℕ
    → (TimeFilter → ℕ → List UserWinEntry)
    → TimeFilter
    → ℕ
    → Cache
    → LeaderboardResult UserRank × Cache
get_user_leaderboard redis json now = get_leaderboard user_rank redis json now users

unfoldable pub get_pair_leaderboard :
    Redis
    → Json (CachedResult PairRank)
    → ℕ
    → (TimeFilter → ℕ → List PairWinEntry)
    → TimeFilter
    → ℕ
    → Cache
    → LeaderboardResult PairRank × Cache
get_pair_leaderboard redis json now = get_leaderboard pair_rank redis json now pairs

abbrev pub all_filters : List TimeFilter
all_filters = week ∷ month ∷ year ∷ total ∷ []

-- `targetScopes.flatMap((scope) => filters.map((f) => this.cacheKey(scope, f)))`
abbrev pub cache_keys : List Scope → List String
cache_keys [] = []
cache_keys (scope ∷ scopes) =
    cache_key scope week
    ∷ cache_key scope month
    ∷ cache_key scope year
    ∷ cache_key scope total
    ∷ cache_keys scopes

-- `scopes ?? ['users', 'pairs']`
abbrev pub target_scopes : Option (List Scope) → List Scope
target_scopes none = users ∷ pairs ∷ []
target_scopes (some scopes) = scopes

-- a failing deletion is only logged
unfoldable pub invalidate_cache : Redis → Option (List Scope) → Cache → Cache
invalidate_cache redis scopes c = elim (cache_keys (target_scopes scopes)) [
  | [] ↦ c
  | key ∷ keys ↦ elim (redis.del (key ∷ keys) c) [ none ↦ c | some c' ↦ c' ]
]
