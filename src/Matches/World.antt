-- ===== src/Matches/World.antt =====
-- The state that the match services share, the methods of MatchRepository over it
-- (repositories/match.repository.ts), transactions, and publication to the queues.
use foosball_api.Prelude.{
  ℕ, true, false, Option, none, some, String, List, [], ◌∷◌, ◌++◌, if◌then◌else◌,
}
use foosball_api.Http.{Result, ok, err, error}
use foosball_api.Action.{Action}
use foosball_api.Events.{Job, QueueName, EventEnvelope, Payload}
use foosball_api.Matches.Entity.{
  MatchType, MatchStatus, MatchPlayer, MatchConfirmation, AuditLog, Match,
}
use foosball_api.Matches.Orm.{Tables, Orm}

-- The database, and the jobs that BullMQ has accepted, oldest first.
pub record World : Type 0 where
  pub db : Tables
  pub jobs : List Job

-- A write that the database may refuse.
abbrev pub write : (Tables → Option Tables) → Action World (Unit {0})
write f w = elim (f w.db) [ none ↦ (err error, w) | some d ↦ (ok tt, record w { db = d }) ]

-- `findById`: the row, with its players loaded
abbrev pub find_by_id : ℕ → World → Option Match
find_by_id m w = elim (w.db.find_row m) [
  | none ↦ none
  | some r ↦ some (record { row = r; players = some (w.db.find_players m) })
]

module _ (o : Orm) where
  abbrev pub create : ℕ → MatchType → MatchStatus → Action World Match
  create user type status w = elim (o.insert_match (some user) type status w.db) [
    | none ↦ (err error, w)
    | some (r, d) ↦ (ok (record { row = r; players = none }), record w { db = d })
  ]

  abbrev pub save : Match → Action World (Unit {0})
  save e = write (o.save_match e.row e.players)

  abbrev pub delete : ℕ → Action World (Unit {0})
  delete m = write (o.delete_match m)

  abbrev pub save_players : List MatchPlayer → Action World (Unit {0})
  save_players ps = write (o.save_players ps)

  abbrev pub save_confirmation : ℕ → ℕ → ℕ → Action World (Unit {0})
  save_confirmation now m u = write (o.save_confirmation m u now)

  abbrev pub delete_all_confirmations : ℕ → Action World (Unit {0})
  delete_all_confirmations m = write (o.delete_confirmations m)

  abbrev pub save_audit_log : AuditLog → Action World (Unit {0})
  save_audit_log l = write (o.save_audit_log l)

  -- `commitTransaction`
  abbrev pub commit : Action World (Unit {0})
  commit w = (if o.commits w.db then ok tt else err error, w)

  -- `queue.add(name, envelope, defaultJobOptions)`
  abbrev pub publish : QueueName → String → EventEnvelope Payload → Action World (Unit {0})
  publish q name e w =
      let job : Job = record { queue = q; name = name; envelope = e } in
      elim (o.accepts w.jobs job) [
        | true ↦ (ok tt, record w { jobs = w.jobs ++ job ∷ [] })
        | false ↦ (err error, w)
      ]

abbrev pub find_players : ℕ → World → List MatchPlayer
find_players m w = w.db.find_players m

abbrev pub find_confirmations : ℕ → World → List MatchConfirmation
find_confirmations m w = w.db.find_confirmations m

abbrev pub find_audit_logs : ℕ → World → List AuditLog
find_audit_logs m w = w.db.find_audit_logs m

-- `catch { rollbackTransaction; throw }` around a transaction's body: the tables go back to
-- what they were, the jobs that were published stay.
abbrev pub or_rollback : Tables → {A : Type 0} → Result A × World → Result A × World
or_rollback d (ok x, w) = (ok x, w)
or_rollback d (err e, w) = (err e, record w { db = d })

abbrev pub transaction : {A : Type 0} → Action World A → Action World A
transaction m w = or_rollback w.db (m w)
