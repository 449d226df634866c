-- ===== src/Producer/Refresh.antt =====
-- The hourly event, when the worker processes it.
use foosball_api.Prelude.{ℕ, ◌≡◌, ◌⊎◌, inl, inr, refl, none}
use foosball_api.Http.{ok, err, error}
use foosball_api.Events.{TimeFilter, week, month, year, total}
use foosball_api.Redis.{Cache, Redis, RedisLaws}
use foosball_api.Leaderboard.{Scope, cache_key}
use foosball_api.Worker.{process_leaderboard_invalidate}
use foosball_api.Worker.Invalidation.{Affects, worker_clears_api_cache}
use foosball_api.Producer.{refresh_event}

Affects-refresh_event :
    (now : ℕ) (f : TimeFilter) → Affects f (refresh_event now).payload.affected_filters
unfolding refresh_event
Affects-refresh_event now week = inl refl
Affects-refresh_event now month = inr (inl refl)
Affects-refresh_event now year = inr (inr (inl refl))
Affects-refresh_event now total = inr (inr (inr (inl refl)))

-- With the default prefix, the worker's processing of the hourly event clears every leaderboard
-- that the API has cached, of both kinds and all filters; or it throws, to be retried, with the
-- cache as it was.
pub hourly_refresh_clears :
    {redis : Redis} (laws : RedisLaws redis) (now : ℕ) (scope : Scope) (f : TimeFilter) (c : Cache)
    → let (r, c') = process_leaderboard_invalidate "leaderboard" redis (refresh_event now) c in
      ((r ≡ ok tt) × (c'.lookup (cache_key scope f) ≡ none)) ⊎ ((r ≡ err error) × (c' ≡ c))
unfolding refresh_event
hourly_refresh_clears laws now scope f c =
    worker_clears_api_cache laws (refresh_event now) scope f c refl (Affects-refresh_event now f)
