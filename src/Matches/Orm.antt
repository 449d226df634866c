-- ===== src/Matches/Orm.antt =====
-- What the match services use of TypeORM, MySQL and BullMQ, which are not in the repository:
-- the queries' answers in a database state, the writes as parameters that may fail (`none` is a
-- rejected promise), and their documented effect on those answers as named hypotheses. The
-- order of rows without ORDER BY is not assumed: an added row is told by counting.
pub mod At
use foosball_api.Prelude.{
  ℕ, ◌+◌, ◌≤◌, ◌≡◌, ◌≢◌, ◌⊎◌, Bool, ◌&&◌, ◌||◌, Option, none, some, List, [], ◌==◌, length, count,
  is_some, if◌then◌else◌,
}
use foosball_api.Events.{Job}
use foosball_api.Matches.Entity.{
  MatchRow, MatchType, MatchStatus, MatchPlayer, MatchConfirmation, AuditLog,
}

-- The answers to the program's queries: matches by id, players and confirmations by match (and
-- user), audit rows of entity type 'match' by entity id. `next_id` is the AUTO_INCREMENT counter.
pub record Tables : Type 0 where
  pub find_row : ℕ → Option MatchRow
  pub find_players : ℕ → List MatchPlayer
  pub find_confirmations : ℕ → List MatchConfirmation
  pub find_confirmation : ℕ → ℕ → Option MatchConfirmation
  pub find_audit_logs : ℕ → List AuditLog
  pub next_id : ℕ

pub record Orm : Type 0 where
  -- create and save of a match without id
  pub insert_match : Option ℕ → MatchType → MatchStatus → Tables → Option (MatchRow × Tables)
  -- save of an entity: its row, and the loaded players, which cascade
  pub save_match : MatchRow → Option (List MatchPlayer) → Tables → Option Tables
  pub delete_match : ℕ → Tables → Option Tables
  pub save_players : List MatchPlayer → Tables → Option Tables
  -- match, user, and the time that the database stamps
  pub save_confirmation : ℕ → ℕ → ℕ → Tables → Option Tables
  pub delete_confirmations : ℕ → Tables → Option Tables
  pub save_audit_log : AuditLog → Tables → Option Tables
  -- does COMMIT succeed in this state
  pub commits : Tables → Bool
  -- does BullMQ accept a job after those that it holds
  pub accepts : List Job → Job → Bool

abbrev pub KeepsConfirmations : Tables → Tables → Type 0
KeepsConfirmations d d' =
    ((i : ℕ) → d'.find_confirmations i ≡ d.find_confirmations i)
    × ((i u : ℕ) → d'.find_confirmation i u ≡ d.find_confirmation i u)

abbrev pub KeepsLogs : Tables → Tables → Type 0
KeepsLogs d d' = (i : ℕ) → d'.find_audit_logs i ≡ d.find_audit_logs i

abbrev pub KeepsRows : Tables → Tables → Type 0
KeepsRows d d' = (i : ℕ) → d'.find_row i ≡ d.find_row i

abbrev pub KeepsPlayers : Tables → Tables → Type 0
KeepsPlayers d d' = (i : ℕ) → d'.find_players i ≡ d.find_players i

-- A new match has an id that no match has, the given columns, nulls elsewhere, and no players or
-- confirmations.
pub record Inserted (by : Option ℕ) (type : MatchType) (status : MatchStatus) (r : MatchRow)
    (d d' : Tables) : Type 0 where
  pub fresh : d.find_row r.id ≡ none
  pub columns : r ≡ record {
    id = r.id;
    created_by = by;
    match_type = type;
    status = status;
    score_a = none;
    score_b = none;
    confirmed_at = none;
    locked_at = none;
  }
  pub row : (i : ℕ) → d'.find_row i ≡ (if i == r.id then some r else d.find_row i)
  pub players : (i : ℕ) → d'.find_players i ≡ (if i == r.id then [] else d.find_players i)
  pub confirmations :
      (i : ℕ) → d'.find_confirmations i ≡ (if i == r.id then [] else d.find_confirmations i)
  pub confirmation :
      (i u : ℕ) → d'.find_confirmation i u ≡ (if i == r.id then none else d.find_confirmation i u)
  pub logs : KeepsLogs d d'

-- Saving a match writes its row. Its players stay where the relation is not loaded or holds just
-- the stored players; those of other matches always stay.
pub record SavedMatch (r : MatchRow) (rel : Option (List MatchPlayer)) (d d' : Tables)
    : Type 0 where
  pub row : (i : ℕ) → d'.find_row i ≡ (if i == r.id then some r else d.find_row i)
  pub players : (rel ≡ none) ⊎ (rel ≡ some (d.find_players r.id)) → KeepsPlayers d d'
  pub other_players : (i : ℕ) → i ≢ r.id → d'.find_players i ≡ d.find_players i
  pub confirmations : KeepsConfirmations d d'
  pub logs : KeepsLogs d d'

-- Deletion cascades to players and confirmations; audit rows have no foreign key to the match.
pub record DeletedMatch (m : ℕ) (d d' : Tables) : Type 0 where
  pub row : (i : ℕ) → d'.find_row i ≡ (if i == m then none else d.find_row i)
  pub players : (i : ℕ) → d'.find_players i ≡ (if i == m then [] else d.find_players i)
  pub confirmations :
      (i : ℕ) → d'.find_confirmations i ≡ (if i == m then [] else d.find_confirmations i)
  pub confirmation :
      (i u : ℕ) → d'.find_confirmation i u ≡ (if i == m then none else d.find_confirmation i u)
  pub logs : KeepsLogs d d'

abbrev pub of_match : ℕ → MatchPlayer → Bool
of_match i p = p.match_id == i

-- Rows are inserted, or update the row of their key: no match gets more new players than are
-- saved, and one that is given a player has one.
pub record SavedPlayers (ps : List MatchPlayer) (d d' : Tables) : Type 0 where
  pub bound :
      (i : ℕ) → length (d'.find_players i) ≤ length (d.find_players i) + count (of_match i) ps
  pub present : (i : ℕ) → count (of_match i) ps ≢ 0 → length (d'.find_players i) ≢ 0
  pub others : (i : ℕ) → count (of_match i) ps ≡ 0 → d'.find_players i ≡ d.find_players i
  pub rows : KeepsRows d d'
  pub confirmations : KeepsConfirmations d d'
  pub logs : KeepsLogs d d'

abbrev pub by_user : (ℕ → Bool) → MatchConfirmation → Bool
by_user p c = p c.user_id

-- A confirmation whose key is new is one more row, of its match and user.
pub record SavedConfirmation (m u : ℕ) (d d' : Tables) : Type 0 where
  pub found :
      (i v : ℕ)
      → is_some (d'.find_confirmation i v) ≡ (i == m && v == u || is_some (d.find_confirmation i v))
  pub added :
      d.find_confirmation m u ≡ none
      → (i : ℕ) (p : ℕ → Bool)
      → count (by_user p) (d'.find_confirmations i)
        ≡ (if i == m && p u then 1 else 0) + count (by_user p) (d.find_confirmations i)
  pub rows : KeepsRows d d'
  pub players : KeepsPlayers d d'
  pub logs : KeepsLogs d d'

pub record DeletedConfirmations (m : ℕ) (d d' : Tables) : Type 0 where
  pub confirmations :
      (i : ℕ) → d'.find_confirmations i ≡ (if i == m then [] else d.find_confirmations i)
  pub confirmation :
      (i u : ℕ) → d'.find_confirmation i u ≡ (if i == m then none else d.find_confirmation i u)
  pub rows : KeepsRows d d'
  pub players : KeepsPlayers d d'
  pub logs : KeepsLogs d d'

pub record SavedAuditLog (l : AuditLog) (d d' : Tables) : Type 0 where
  pub added :
      l.entity_type ≡ "match"
      → (i : ℕ) (p : AuditLog → Bool)
      → count p (d'.find_audit_logs i)
        ≡ (if i == l.entity_id && p l then 1 else 0) + count p (d.find_audit_logs i)
  pub rows : KeepsRows d d'
  pub players : KeepsPlayers d d'
  pub confirmations : KeepsConfirmations d d'

-- The documented effect of each write that succeeds.
pub record OrmLaws (o : Orm) : Type 0 where
  pub insert_match :
      (by : Option ℕ) (t : MatchType) (s : MatchStatus) (r : MatchRow) (d d' : Tables)
      → o.insert_match by t s d ≡ some (r, d')
      → Inserted by t s r d d'
  pub save_match :
      (r : MatchRow) (rel : Option (List MatchPlayer)) (d d' : Tables)
      → o.save_match r rel d ≡ some d'
      → SavedMatch r rel d d'
  pub delete_match : (m : ℕ) (d d' : Tables) → o.delete_match m d ≡ some d' → DeletedMatch m d d'
  pub save_players :
      (ps : List MatchPlayer) (d d' : Tables) → o.save_players ps d ≡ some d' → SavedPlayers ps d d'
  pub save_confirmation :
      (m u now : ℕ) (d d' : Tables)
      → o.save_confirmation m u now d ≡ some d'
      → SavedConfirmation m u d d'
  pub delete_confirmations :
      (m : ℕ) (d d' : Tables) → o.delete_confirmations m d ≡ some d' → DeletedConfirmations m d d'
  pub save_audit_log :
      (l : AuditLog) (d d' : Tables) → o.save_audit_log l d ≡ some d' → SavedAuditLog l d d'
