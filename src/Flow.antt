-- ===== src/Flow.antt =====
-- The parts together: the jobs that the API's services publish, the worker's processor that
-- consumes those of the leaderboards' queue (apps/worker/src/processors), and the leaderboards,
-- which read the tables that the services write.
pub mod Jobs
pub mod Boards
mod Tests
use foosball_api.Prelude.{ℕ, ◌≡◌, some, String, List, [], ◌∷◌, Memᴰ}
use foosball_api.Http.{ok, error}
use foosball_api.Action.{Action, throw, pure, ◌>>◌}
use foosball_api.Events.{
  EventEnvelope, Payload, leaderboard_invalidate, Job, QueueName, queue_leaderboard,
}
use foosball_api.Matches.Entity.{MatchRow, MatchPlayer}
use foosball_api.Matches.Orm.{Tables}
use foosball_api.Redis.{Cache, Redis}
use foosball_api.Leaderboard.Queries.{Base}
use foosball_api.Worker.{process_leaderboard_invalidate}

module _ (prefix : String) (redis : Redis) where
  -- the processor at the data of a job; it reads `affectedFilters`, which no other payload has
  unfoldable pub process : EventEnvelope Payload → Payload → Action Cache (Unit {0})
  unfolding process_leaderboard_invalidate
  process e (leaderboard_invalidate p) = process_leaderboard_invalidate prefix redis (record {
    event_type = e.event_type;
    version = e.version;
    occurred_at = e.occurred_at;
    payload = p;
  })
  process e _ = throw error

  -- a job of another queue is not this processor's
  abbrev pub process_of : QueueName → EventEnvelope Payload → Action Cache (Unit {0})
  process_of queue_leaderboard e = process e e.payload
  process_of _ e = pure tt

  -- the jobs in the order in which they were published; one that fails stops here, to be retried
  unfoldable pub consume : List Job → Action Cache (Unit {0})
  unfolding process
  consume [] = pure tt
  consume (j ∷ js) = process_of j.queue j.envelope >> consume js

-- The tables that the leaderboards' queries read show a match of the tables that the services
-- write: its row, and its players.
pub record Shows (base : Base) (d : Tables) (m : ℕ) : Type 0 where
  pub row : (r : MatchRow) → d.find_row m ≡ some r → Memᴰ r base.matches
  pub players : (p : MatchPlayer) → Memᴰ p (d.find_players m) → Memᴰ p base.players
