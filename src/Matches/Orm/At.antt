-- ===== src/Matches/Orm/At.antt =====
-- The laws of the writes at one match and one user, in a form that needs no name for the new
-- tables: nothing is said of a write that fails.
use foosball_api.Prelude.{
  ℕ, ◌+◌, ◌≡◌, ◌≢◌, refl, inl, inr, Bool, ◌&&◌, ◌||◌, Option, none, some, List, [], ◌==◌, count,
  is_some, if◌then◌else◌,
}
use foosball_api.Matches.Entity.{MatchRow, MatchType, MatchStatus, MatchPlayer, AuditLog}
use foosball_api.Matches.Orm.{Tables, Orm, OrmLaws, Inserted, by_user, of_match}

abbrev pub IfWritten : (Tables → Type 0) → Option Tables → Type 0
IfWritten P none = Unit
IfWritten P (some d) = P d

if_written :
    (P : Tables → Type 0) (x : Option Tables) → ((d : Tables) → x ≡ some d → P d) → IfWritten P x
if_written P none h = tt
if_written P (some d) h = h d refl

-- nothing that a write leaves alone changes at this match and user
pub record SameRow (d : Tables) (i : ℕ) (d' : Tables) : Type 0 where
  pub row : d'.find_row i ≡ d.find_row i

pub record SamePlayers (d : Tables) (i : ℕ) (d' : Tables) : Type 0 where
  pub players : d'.find_players i ≡ d.find_players i

pub record SameVotes (d : Tables) (i u : ℕ) (d' : Tables) : Type 0 where
  pub confirmations : d'.find_confirmations i ≡ d.find_confirmations i
  pub confirmation : d'.find_confirmation i u ≡ d.find_confirmation i u

pub record RowWritten (r : MatchRow) (d : Tables) (i : ℕ) (d' : Tables) : Type 0 where
  pub row : d'.find_row i ≡ (if i == r.id then some r else d.find_row i)

pub record Purged (m : ℕ) (d : Tables) (i u : ℕ) (d' : Tables) : Type 0 where
  pub confirmations : d'.find_confirmations i ≡ (if i == m then [] else d.find_confirmations i)
  pub confirmation : d'.find_confirmation i u ≡ (if i == m then none else d.find_confirmation i u)

pub record VoteAdded (m v : ℕ) (d : Tables) (i u : ℕ) (d' : Tables) : Type 0 where
  pub found :
      is_some (d'.find_confirmation i u) ≡ (i == m && u == v || is_some (d.find_confirmation i u))
  pub by_one :
      count (by_user (λ x. x == u)) (d'.find_confirmations i)
      ≡ (if i == m && v == u then 1 else 0) + count (by_user (λ x. x == u)) (d.find_confirmations i)
  pub total :
      count (by_user (λ _. Bool.true)) (d'.find_confirmations i)
      ≡ (if i == m && Bool.true then 1 else 0)
        + count (by_user (λ _. Bool.true)) (d.find_confirmations i)

module _ {o : Orm} (laws : OrmLaws o) (d : Tables) (i u : ℕ) where
  -- a save whose loaded players are the stored ones
  pub save_loaded_at :
      (r : MatchRow)
      → IfWritten
          (λ d'. RowWritten r d i d' × SamePlayers d i d' × SameVotes d i u d')
          (o.save_match r (some (d.find_players r.id)) d)
  save_loaded_at r = if_written _ _ λ d' e.
      let s = laws.save_match r (some (d.find_players r.id)) d d' e in
      (
        record { row = s.row i },
        record { players = s.players (inr refl) i },
        record { confirmations = s.confirmations.0 i; confirmation = s.confirmations.1 i u },
      )

  -- a save with no players loaded
  pub save_unloaded_at :
      (r : MatchRow)
      → IfWritten
          (λ d'. RowWritten r d i d' × SamePlayers d i d' × SameVotes d i u d')
          (o.save_match r none d)
  save_unloaded_at r = if_written _ _ λ d' e.
      let s = laws.save_match r none d d' e in
      (
        record { row = s.row i },
        record { players = s.players (inl refl) i },
        record { confirmations = s.confirmations.0 i; confirmation = s.confirmations.1 i u },
      )

  -- a save with any players loaded
  pub save_at :
      (r : MatchRow) (rel : Option (List MatchPlayer))
      → IfWritten
          (λ d'. RowWritten r d i d' × (i ≢ r.id → SamePlayers d i d') × SameVotes d i u d')
          (o.save_match r rel d)
  save_at r rel = if_written _ _ λ d' e.
      let s = laws.save_match r rel d d' e in
      (
        record { row = s.row i },
        (λ ne. record { players = s.other_players i ne }),
        record { confirmations = s.confirmations.0 i; confirmation = s.confirmations.1 i u },
      )

  pub save_players_at :
      (ps : List MatchPlayer)
      → IfWritten
          (λ d'.
            (count (of_match i) ps ≡ 0 → SamePlayers d i d') × SameRow d i d' × SameVotes d i u d')
          (o.save_players ps d)
  save_players_at ps = if_written _ _ λ d' e.
      let s = laws.save_players ps d d' e in
      (
        (λ z. record { players = s.others i z }),
        record { row = s.rows i },
        record { confirmations = s.confirmations.0 i; confirmation = s.confirmations.1 i u },
      )

  pub delete_confirmations_at :
      (m : ℕ)
      → IfWritten
          (λ d'. Purged m d i u d' × SameRow d i d' × SamePlayers d i d')
          (o.delete_confirmations m d)
  delete_confirmations_at m = if_written _ _ λ d' e.
      let s = laws.delete_confirmations m d d' e in
      (
        record { confirmations = s.confirmations i; confirmation = s.confirmation i u },
        record { row = s.rows i },
        record { players = s.players i },
      )

  pub save_confirmation_at :
      (m v now : ℕ)
      → d.find_confirmation m v ≡ none
      → IfWritten
          (λ d'. VoteAdded m v d i u d' × SameRow d i d' × SamePlayers d i d')
          (o.save_confirmation m v now d)
  save_confirmation_at m v now new = if_written _ _ λ d' e.
      let s = laws.save_confirmation m v now d d' e in
      (
        record {
          found = s.found i u;
          by_one = s.added new i (λ x. x == u);
          total = s.added new i (λ _. Bool.true);
        },
        record { row = s.rows i },
        record { players = s.players i },
      )

  pub save_audit_log_at :
      (l : AuditLog)
      → IfWritten
          (λ d'. SameRow d i d' × SamePlayers d i d' × SameVotes d i u d')
          (o.save_audit_log l d)
  save_audit_log_at l = if_written _ _ λ d' e.
      let s = laws.save_audit_log l d d' e in
      (
        record { row = s.rows i },
        record { players = s.players i },
        record { confirmations = s.confirmations.0 i; confirmation = s.confirmations.1 i u },
      )

  pub delete_match_at :
      (m : ℕ)
      → IfWritten
          (λ d'.
            (d'.find_row i ≡ (if i == m then none else d.find_row i))
            × (d'.find_players i ≡ (if i == m then [] else d.find_players i))
            × Purged m d i u d')
          (o.delete_match m d)
  delete_match_at m = if_written _ _ λ d' e.
      let s = laws.delete_match m d d' e in
      (
        s.row i,
        s.players i,
        record { confirmations = s.confirmations i; confirmation = s.confirmation i u },
      )

-- the answers at one match and user after an insertion
abbrev pub AfterInsert : Tables → ℕ → ℕ → MatchRow × Tables → Type 0
AfterInsert d i u (r, d') =
    (d'.find_row i ≡ (if i == r.id then some r else d.find_row i))
    × (d'.find_players i ≡ (if i == r.id then [] else d.find_players i))
    × Purged r.id d i u d'

abbrev pub IfInserted : (MatchRow × Tables → Type 0) → Option (MatchRow × Tables) → Type 0
IfInserted P none = Unit
IfInserted P (some x) = P x

if_inserted :
    (P : MatchRow × Tables → Type 0) (x : Option (MatchRow × Tables))
    → ((r : MatchRow) (d : Tables) → x ≡ some (r, d) → P (r, d))
    → IfInserted P x
if_inserted P none h = tt
if_inserted P (some (r, d)) h = h r d refl

pub insert_at :
    {o : Orm} (laws : OrmLaws o) (d : Tables) (i u : ℕ) (by : Option ℕ) (t : MatchType)
    (s : MatchStatus)
    → IfInserted (λ x. Inserted by t s x.0 d x.1 × AfterInsert d i u x) (o.insert_match by t s d)
insert_at laws d i u by t s = if_inserted _ _ λ r d' e.
    let n = laws.insert_match by t s r d d' e in
    (
      n,
      (
        n.row i,
        n.players i,
        record { confirmations = n.confirmations i; confirmation = n.confirmation i u },
      ),
    )
