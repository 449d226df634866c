-- ===== src/Matches/Trail/Entries.antt =====
-- The number of audit rows of a match, and what it means that a change is logged.
use foosball_api.Prelude.{ℕ, ◌≤◌, ◌<◌, ◌≡◌, ◌⊎◌, ap, true, some, count, Bool, inl, inr, arith}
use foosball_api.Matches.Entity.{MatchRow, AuditLog, is_confirmed}
use foosball_api.Matches.Orm.{Tables, Orm, OrmLaws}
use foosball_api.Matches.Trail.Writes.{Closed}

-- the number of audit rows of the match
abbrev pub entries : ℕ → Tables → ℕ
entries i d = count (λ _. true) (d.find_audit_logs i)

module _ {o : Orm} (laws : OrmLaws o) (i : ℕ) (p : AuditLog → Bool) (n : ℕ) where
  -- no write takes an audit row away, by whatever test the rows are counted
  pub counted-Closed : Closed o (λ d. n ≤ count p (d.find_audit_logs i))
  counted-Closed = record {
    insert = λ by t s r d d' e h.
        omega (arith, h, ap (count p) ((laws.insert_match by t s r d d' e).logs i));
    save = λ r rel d d' e h. omega (arith, h, ap (count p) ((laws.save_match r rel d d' e).logs i));
    delete = λ m d d' e h. omega (arith, h, ap (count p) ((laws.delete_match m d d' e).logs i));
    save_players =
        λ ps d d' e h. omega (arith, h, ap (count p) ((laws.save_players ps d d' e).logs i));
    save_confirmation = λ m u now d d' e h.
        omega (arith, h, ap (count p) ((laws.save_confirmation m u now d d' e).logs i));
    delete_confirmations =
        λ m d d' e h. omega (arith, h, ap (count p) ((laws.delete_confirmations m d d' e).logs i));
    save_audit_log =
        λ l d d' match e h. ground (arith, h, (laws.save_audit_log l d d' e).added match i p);
  }

-- the row is as it was, or it is still confirmed and there are more audit rows
abbrev pub Accounted : ℕ → MatchRow → Tables → Tables → Type 0
Accounted i r d d' =
    (d'.find_row i ≡ some r)
    ⊎ ((r' : MatchRow) × (d'.find_row i ≡ some r')
        × (is_confirmed r'.status ≡ true)
        × (entries i d < entries i d'))

pub Accounted-after :
    (i : ℕ) (r : MatchRow) (d d₁ d' : Tables)
    → entries i d ≤ entries i d₁
    → Accounted i r d₁ d'
    → Accounted i r d d'
Accounted-after i r d d₁ d' more (inl same) = inl same
Accounted-after i r d d₁ d' more (inr (r', found, done, longer)) =
    inr (r', found, done, omega (arith, more, longer))

pub Accounted-grown :
    (i : ℕ) (r r₁ : MatchRow) (d d₁ d' : Tables)
    → is_confirmed r₁.status ≡ true
    → entries i d < entries i d₁
    → entries i d₁ ≤ entries i d'
    → Accounted i r₁ d₁ d'
    → Accounted i r d d'
Accounted-grown i r r₁ d d₁ d' done longer more (inl same) =
    inr (r₁, same, done, omega (arith, longer, more))
Accounted-grown i r r₁ d d₁ d' done longer more (inr (r', found, still, longest)) =
    inr (r', found, still, omega (arith, longer, longest))
