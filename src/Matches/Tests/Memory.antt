-- ===== src/Matches/Tests/Memory.antt =====
-- A database in memory: every write succeeds but for what the parameters refuse. It meets the
-- laws of the interface, so that they can hold.
use mathlib.Core.Path.{subst}
use foosball_api.Prelude.{
  some_eq, Option-cases, inl, inr, ℕ, suc, ◌≡◌, refl, ◌∙◌, Bool, true, ◌&&◌, Option, none, some,
  List, [], ◌∷◌, ◌++◌, arith, ◌==◌, length, count, count-append, length-append, append-nil,
  if◌then◌else◌,
}
use foosball_api.Events.{Job}
use foosball_api.Matches.Entity.{
  MatchRow, MatchType, MatchStatus, MatchPlayer, MatchConfirmation, AuditLog,
}
use foosball_api.Matches.Orm.{
  Tables, Orm, OrmLaws, Inserted, SavedMatch, DeletedMatch, SavedPlayers, SavedConfirmation,
  DeletedConfirmations, SavedAuditLog, of_match,
}

abbrev pub empty : Tables
empty = record {
  find_row = λ _. none;
  find_players = λ _. [];
  find_confirmations = λ _. [];
  find_confirmation = λ _ _. none;
  find_audit_logs = λ _. [];
  next_id = 1;
}

abbrev new_row : ℕ → Option ℕ → MatchType → MatchStatus → MatchRow
new_row id by type status = record {
  id = id;
  created_by = by;
  match_type = type;
  status = status;
  score_a = none;
  score_b = none;
  confirmed_at = none;
  locked_at = none;
}

abbrev insertion : Option ℕ → MatchType → MatchStatus → Tables → MatchRow × Tables
insertion by type status d =
    let r = new_row d.next_id by type status in
    (
      r,
      record d {
        find_row = λ i. if i == r.id then some r else d.find_row i;
        find_players = λ i. if i == r.id then [] else d.find_players i;
        find_confirmations = λ i. if i == r.id then [] else d.find_confirmations i;
        find_confirmation = λ i u. if i == r.id then none else d.find_confirmation i u;
        next_id = suc d.next_id;
      },
    )

-- an id that is taken is a duplicate key
abbrev insert_match : Option ℕ → MatchType → MatchStatus → Tables → Option (MatchRow × Tables)
insert_match by type status d = elim (d.find_row d.next_id) [
  | some _ ↦ none
  | none ↦ some (insertion by type status d)
]

abbrev save_match : MatchRow → Option (List MatchPlayer) → Tables → Option Tables
save_match r rel d = some (record d { find_row = λ i. if i == r.id then some r else d.find_row i })

abbrev delete_match : ℕ → Tables → Option Tables
delete_match m d = some (record d {
  find_row = λ i. if i == m then none else d.find_row i;
  find_players = λ i. if i == m then [] else d.find_players i;
  find_confirmations = λ i. if i == m then [] else d.find_confirmations i;
  find_confirmation = λ i u. if i == m then none else d.find_confirmation i u;
})

-- the saved players of a match, in order
abbrev select : ℕ → List MatchPlayer → List MatchPlayer
select i [] = []
select i (p ∷ ps) = let rest = select i ps in if of_match i p then p ∷ rest else rest

abbrev save_players : List MatchPlayer → Tables → Option Tables
save_players ps d = some (record d { find_players = λ i. d.find_players i ++ select i ps })

abbrev new_confirmation : ℕ → ℕ → ℕ → MatchConfirmation
new_confirmation m u now = record { match_id = m; user_id = u; confirmed_at = now }

abbrev save_confirmation : ℕ → ℕ → ℕ → Tables → Option Tables
save_confirmation m u now d =
    let c = new_confirmation m u now in
    some (record d {
      find_confirmations =
          λ i. if i == m then c ∷ d.find_confirmations i else d.find_confirmations i;
      find_confirmation = λ i v. if i == m && v == u then some c else d.find_confirmation i v;
    })

abbrev delete_confirmations : ℕ → Tables → Option Tables
delete_confirmations m d = some (record d {
  find_confirmations = λ i. if i == m then [] else d.find_confirmations i;
  find_confirmation = λ i u. if i == m then none else d.find_confirmation i u;
})

abbrev save_audit_log : AuditLog → Tables → Option Tables
save_audit_log l d = some (record d {
  find_audit_logs =
      λ i. if i == l.entity_id then d.find_audit_logs i ++ l ∷ [] else d.find_audit_logs i;
})

-- `commits` and `accepts` are the failures that a test wants
abbrev pub memory : (Tables → Bool) → (List Job → Job → Bool) → Orm
memory commits accepts = record {
  insert_match = insert_match;
  save_match = save_match;
  delete_match = delete_match;
  save_players = save_players;
  save_confirmation = save_confirmation;
  delete_confirmations = delete_confirmations;
  save_audit_log = save_audit_log;
  commits = commits;
  accepts = accepts;
}

abbrev pub reliable : Orm
reliable = memory (λ _. true) (λ _ _. true)

length-select : (i : ℕ) (ps : List MatchPlayer) → length (select i ps) ≡ count (of_match i) ps
length-select i [] = refl
length-select i (p ∷ ps) = ground (arith, length-select i ps)

append-nil_of {ℓ} : {A : Type ℓ} (xs ys : List A) → ys ≡ [] → xs ++ ys ≡ xs
append-nil_of xs ys e = rw e (append-nil xs)

nil_of_length {ℓ} : {A : Type ℓ} (xs : List A) → length xs ≡ 0 → xs ≡ []
nil_of_length [] e = refl
nil_of_length (x ∷ xs) e = absurd (omega arith)

inserted :
    (by : Option ℕ) (t : MatchType) (s : MatchStatus) (r : MatchRow) (d d' : Tables)
    → insert_match by t s d ≡ some (r, d')
    → Inserted by t s r d d'
inserted by t s r d d' e = elim (Option-cases (d.find_row d.next_id)) [
  | inr (x, taken) ↦ absurd (ground (arith, taken, e))
  | inl free ↦
      let given : some (insertion by t s d) ≡ some (r, d') = ground (arith, free, e) in
      subst (λ (x : MatchRow × Tables). Inserted by t s x.0 d x.1) (some_eq given)
        (record {
          fresh = free;
          columns = refl;
          row = λ i. refl;
          players = λ i. refl;
          confirmations = λ i. refl;
          confirmation = λ i u. refl;
          logs = λ i. refl;
        })
]

saved_match :
    (r : MatchRow) (rel : Option (List MatchPlayer)) (d d' : Tables)
    → save_match r rel d ≡ some d'
    → SavedMatch r rel d d'
saved_match r rel d d' e = subst (SavedMatch r rel d) (some_eq e) (record {
  row = λ i. refl;
  players = λ _ i. refl;
  other_players = λ i _. refl;
  confirmations = (λ i. refl, λ i u. refl);
  logs = λ i. refl;
})

deleted_match : (m : ℕ) (d d' : Tables) → delete_match m d ≡ some d' → DeletedMatch m d d'
deleted_match m d d' e = subst (DeletedMatch m d) (some_eq e) (record {
  row = λ i. refl;
  players = λ i. refl;
  confirmations = λ i. refl;
  confirmation = λ i u. refl;
  logs = λ i. refl;
})

saved_players :
    (ps : List MatchPlayer) (d d' : Tables) → save_players ps d ≡ some d' → SavedPlayers ps d d'
saved_players ps d d' e = subst (SavedPlayers ps d) (some_eq e) (record {
  bound = λ i. omega (arith, length-append (d.find_players i) (select i ps), length-select i ps);
  present = λ i some_given.
      omega (arith, length-append (d.find_players i) (select i ps), length-select i ps);
  others = λ i z.
      append-nil_of (d.find_players i) (select i ps)
        (nil_of_length (select i ps) (length-select i ps ∙ z));
  rows = λ i. refl;
  confirmations = (λ i. refl, λ i u. refl);
  logs = λ i. refl;
})

saved_confirmation :
    (m u now : ℕ) (d d' : Tables)
    → save_confirmation m u now d ≡ some d'
    → SavedConfirmation m u d d'
saved_confirmation m u now d d' e = subst (SavedConfirmation m u d) (some_eq e) (record {
  found = λ i v. ground arith;
  added = λ _ i p. ground arith;
  rows = λ i. refl;
  players = λ i. refl;
  logs = λ i. refl;
})

deleted_confirmations :
    (m : ℕ) (d d' : Tables) → delete_confirmations m d ≡ some d' → DeletedConfirmations m d d'
deleted_confirmations m d d' e = subst (DeletedConfirmations m d) (some_eq e) (record {
  confirmations = λ i. refl;
  confirmation = λ i u. refl;
  rows = λ i. refl;
  players = λ i. refl;
  logs = λ i. refl;
})

saved_audit_log :
    (l : AuditLog) (d d' : Tables) → save_audit_log l d ≡ some d' → SavedAuditLog l d d'
saved_audit_log l d d' e = subst (SavedAuditLog l d) (some_eq e) (record {
  added = λ _ i p. ground (arith, count-append p (d.find_audit_logs i) (l ∷ []));
  rows = λ i. refl;
  players = λ i. refl;
  confirmations = (λ i. refl, λ i u. refl);
})

pub memory_laws :
    (commits : Tables → Bool) (accepts : List Job → Job → Bool) → OrmLaws (memory commits accepts)
memory_laws commits accepts = record {
  insert_match = inserted;
  save_match = saved_match;
  delete_match = deleted_match;
  save_players = saved_players;
  save_confirmation = saved_confirmation;
  delete_confirmations = deleted_confirmations;
  save_audit_log = saved_audit_log;
}

pub reliable_laws : OrmLaws reliable
reliable_laws = memory_laws (λ _. true) (λ _ _. true)
