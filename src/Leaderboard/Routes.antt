-- ===== src/Leaderboard/Routes.antt =====
-- apps/api/src/leaderboard/leaderboard.controller.ts, with the query of leaderboard-query.dto.ts.
pub mod Fresh
use foosball_api.Prelude.{ℕ, Bool, true, ◌&&◌, Option, none, some, List, leb, get_or}
use foosball_api.Events.{TimeFilter, total}
use foosball_api.Redis.{Cache, Redis}
use foosball_api.Leaderboard.{
  Json, CachedResult, CacheStatus, LeaderboardResult, UserWinEntry, UserRank, PairWinEntry,
  PairRank, get_user_leaderboard, get_pair_leaderboard,
}

pub record LeaderboardQueryDto : Type 0 where
  pub filter : Option TimeFilter
  pub limit : Option ℕ

-- `@Min(1) @Max(100)`; what is left out gets its default
abbrev pub limit_valid : Option ℕ → Bool
limit_valid none = true
limit_valid (some n) = leb 1 n && leb n 100

-- the body, and the `X-Cache` header
pub record BoardReply (E : Type 0) : Type 0 where
  pub x_cache : CacheStatus
  pub filter : TimeFilter
  -- `data`
  pub rows : List E
  pub generated_at : ℕ

abbrev pub board_reply : {E : Type 0} → LeaderboardResult E × Cache → BoardReply E × Cache
board_reply (answer, c) = (
  record {
    x_cache = answer.cache_status;
    filter = answer.result.filter;
    rows = answer.result.rows;
    generated_at = answer.result.generated_at;
  },
  c,
)

unfoldable pub get_leaderboard_users :
    Redis
    → Json (CachedResult UserRank)
    → ℕ
    → (TimeFilter → ℕ → List UserWinEntry)
    → LeaderboardQueryDto
    → Cache
    → BoardReply UserRank × Cache
get_leaderboard_users redis json now query dto c =
    board_reply
      (get_user_leaderboard redis json now query (get_or dto.filter total) (get_or dto.limit 20) c)

unfoldable pub get_leaderboard_pairs :
    Redis
    → Json (CachedResult PairRank)
    → ℕ
    → (TimeFilter → ℕ → List PairWinEntry)
    → LeaderboardQueryDto
    → Cache
    → BoardReply PairRank × Cache
get_leaderboard_pairs redis json now query dto c =
    board_reply
      (get_pair_leaderboard redis json now query (get_or dto.filter total) (get_or dto.limit 20) c)
