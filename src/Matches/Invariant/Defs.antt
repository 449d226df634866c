-- ===== src/Matches/Invariant/Defs.antt =====
-- The invariant of a match's rows, at one match and one user.
use foosball_api.Prelude.{
  ℕ, ◌≤◌, ◌≡◌, true, false, Option, none, some, ◌==◌, length, count, is_some, if◌then◌else◌,
}
use foosball_api.Matches.Entity.{MatchRow, is_confirmed, is_locked}
use foosball_api.Matches.Dto.{optional_score_valid}
use foosball_api.Matches.Orm.{Tables, by_user}
use foosball_api.Matches.Confirmation.{calculate_quorum}

-- A row stands under its id, with scores that fit its columns. A match that awaits confirmation or
-- is confirmed has both scores; any other has no confirmations. A confirmed match has its time of
-- confirmation, the same time as its lock, and confirmations of a quorum of its players.
pub record RowOk (i : ℕ) (r : MatchRow) (players confirmations : ℕ) : Type 0 where
  pub keyed : r.id ≡ i
  pub bounded_a : optional_score_valid r.score_a ≡ true
  pub bounded_b : optional_score_valid r.score_b ≡ true
  pub scored : is_locked r.status ≡ true → (is_some r.score_a ≡ true) × (is_some r.score_b ≡ true)
  pub unvoted : is_locked r.status ≡ false → confirmations ≡ 0
  pub stamped :
      is_confirmed r.status ≡ true
      → (is_some r.confirmed_at ≡ true) × (r.locked_at ≡ r.confirmed_at)
  pub quorum : is_confirmed r.status ≡ true → calculate_quorum players ≤ confirmations

abbrev pub FoundOk : ℕ → Option MatchRow → ℕ → ℕ → Type 0
FoundOk i none players confirmations = confirmations ≡ 0
FoundOk i (some r) players confirmations = RowOk i r players confirmations

-- A user has one confirmation of a match, where one is found by the key, and none otherwise.
pub record ConsistentAt (d : Tables) (i u : ℕ) : Type 0 where
  pub row : FoundOk i (d.find_row i) (length (d.find_players i)) (length (d.find_confirmations i))
  pub once :
      count (by_user (λ v. v == u)) (d.find_confirmations i)
      ≡ (if is_some (d.find_confirmation i u) then 1 else 0)

abbrev pub IsConsistent : Tables → Type 0
IsConsistent d = (i u : ℕ) → ConsistentAt d i u
