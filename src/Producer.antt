-- ===== src/Producer.antt =====
-- apps/producer/src/schedulers/leaderboard-cron.service.ts: the event that it publishes every
-- hour. The job id, by which BullMQ drops a second job of the same hour, is left out.
pub mod Refresh
mod Tests
use foosball_api.Prelude.{ℕ, [], ◌∷◌}
use foosball_api.Events.{EventEnvelope, LeaderboardInvalidatePayload, week, month, year, total}

unfoldable pub refresh_event : ℕ → EventEnvelope LeaderboardInvalidatePayload
refresh_event now = record {
  event_type = "leaderboard.cache-refresh";
  version = 1;
  occurred_at = now;
  payload = record {
    reason = "scheduled-hourly-refresh";
    affected_filters = week ∷ month ∷ year ∷ total ∷ [];
  };
}
