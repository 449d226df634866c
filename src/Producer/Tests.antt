-- ===== src/Producer/Tests.antt =====
-- The hourly event at a cache that holds a text under every key.
use foosball_api.Prelude.{◌≡◌, ◌⊎◌, none, some}
use foosball_api.Http.{ok, err, error}
use foosball_api.Events.{total}
use foosball_api.Redis.{Cache}
use foosball_api.Redis.Memory.{memory, memory_laws}
use foosball_api.Leaderboard.{pairs, cache_key}
use foosball_api.Worker.{process_leaderboard_invalidate}
use foosball_api.Producer.{refresh_event}
use foosball_api.Producer.Refresh.{hourly_refresh_clears}

abbrev warm : Cache
warm = record { lookup = λ _. some "{}" }

hourly_refresh_clears_example :
    let (r, c') =
      process_leaderboard_invalidate "leaderboard" memory (refresh_event 3600000) warm in
    ((r ≡ ok tt) × (c'.lookup (cache_key pairs total) ≡ none)) ⊎ ((r ≡ err error) × (c' ≡ warm))
hourly_refresh_clears_example = hourly_refresh_clears memory_laws 3600000 pairs total warm
