-- ===== src/Matches/Invariant/Votes.antt =====
-- ConfirmationService keeps the invariant, when no other request runs in between.
use foosball_api.Prelude.{
  ℕ, ◌≡◌, ◌⊎◌, refl, sym, true, false, Option, none, some, inl, inr, arith, Option-cases,
  Bool-cases, length, count, leb, is_some, List, [], ◌∷◌, if◌then◌else◌,
}
use foosball_api.Http.{
  Exception, Result, ok, err, match_not_found, match_not_awaiting_confirmation, not_a_player,
  forbidden, not_found, conflict,
}
use mathlib.Core.Path.{subst}
use foosball_api.Action.{Action, pure, ◌>>=◌, ◌>>◌, bind-ok, bind-err}
use foosball_api.Matches.Entity.{MatchRow, MatchPlayer, MatchConfirmation, is_awaiting}
use foosball_api.Matches.Orm.{Tables, Orm, OrmLaws, by_user}
use foosball_api.Matches.Orm.At.{save_unloaded_at, save_confirmation_at}
use foosball_api.Matches.World.{World, or_rollback, transaction}
use foosball_api.Matches.Confirmation.{
  Vote, ConfirmationStatusResult, is_player, calculate_quorum, pre_check, confirm_row, cast_vote,
  locked_vote, publish_confirmed, publish_newly, confirm,
}
use foosball_api.Matches.Invariant.Defs.{IsConsistent}
use foosball_api.Matches.Invariant.Outcomes.{written, then_written, guarded_write}

pub count-by_user : (cs : List MatchConfirmation) → count (by_user (λ _. true)) cs ≡ length cs
count-by_user [] = refl
count-by_user (c ∷ cs) = ground (arith, count-by_user cs)

or_rollback-db :
    {A : Type 0} (P : Tables → Type 0) (d : Tables) (x : Result A × World)
    → P d
    → P x.1.db
    → P (or_rollback d x).1.db
or_rollback-db P d (ok x, w) before after = after
or_rollback-db P d (err e, w) before after = before

-- a transaction leaves its body's tables or the tables that it began with
pub transaction-db :
    {A : Type 0} (P : Tables → Type 0) (m : Action World A) (w : World)
    → P w.db
    → P (m w).1.db
    → P (transaction m w).1.db
transaction-db P m w before after = or_rollback-db P w.db (m w) before after

-- The checks of `confirm` refuse, or return the players of the match; they change nothing.
pub pre_check-cases :
    (m user : ℕ) (w : World)
    → ((e : Exception) × (pre_check m user w ≡ (err e, w)))
      ⊎ (pre_check m user w ≡ (ok (w.db.find_players m), w))
unfolding pre_check
pre_check-cases m user w = elim (Option-cases (w.db.find_row m)) [
  | inl absent ↦ inl (not_found match_not_found, ground arith)
  | inr (r, found) ↦ elim (Bool-cases (is_awaiting r.status)) [
    | inl awaiting ↦ elim (Bool-cases (is_player user (w.db.find_players m))) [
      | inl player ↦ inr (ground arith)
      | inr other ↦ inl (forbidden not_a_player, ground arith)
    ]
    | inr other ↦ inl (conflict match_not_awaiting_confirmation, ground arith)
  ]
]

-- what follows an action that does not touch the tables leaves them as the action did
pub bind-db :
    {A B : Type 0} (m : Action World A) (f : A → Action World B) (w : World)
    → ((x : A) (w' : World) → (f x w').1.db ≡ w'.db)
    → ((m >>= f) w).1.db ≡ (m w).1.db
bind-db {A} m f w kept = go (m w)
  where
    go : (x : Result A × World) → (((λ (_ : World). x) >>= f) w).1.db ≡ x.1.db
    go (ok x, w') = kept x w'
    go (err e, w') = refl

abbrev pub after_vote : (o : Orm) → ℕ → ℕ → MatchRow → ℕ → Tables → Tables
after_vote o now m r players d =
    if leb (calculate_quorum players) (length (d.find_confirmations m))
    then written (o.save_match (confirm_row now r) none d) d
    else d

module _ {o : Orm} (laws : OrmLaws o) (now m user : ℕ) where
  save_confirmation-IsConsistent :
      {r : MatchRow} (d d' : Tables)
      → d.find_row m ≡ some r
      → is_awaiting r.status ≡ true
      → d.find_confirmation m user ≡ none
      → o.save_confirmation m user now d ≡ some d'
      → IsConsistent d
      → IsConsistent d'
  save_confirmation-IsConsistent d d' found awaiting new saved h i u = ground (
    arith,
    h i u,
    save_confirmation_at laws d i u m user now new,
    count-by_user (d.find_confirmations i),
    count-by_user (d'.find_confirmations i),
  )

  after_vote-IsConsistent :
      (r : MatchRow) (d : Tables)
      → d.find_row m ≡ some r
      → is_awaiting r.status ≡ true
      → IsConsistent d
      → IsConsistent (after_vote o now m r (length (d.find_players m)) d)
  after_vote-IsConsistent r d found awaiting h i u =
      ground (arith, h i u, h m u, save_unloaded_at laws d i u (confirm_row now r))

  pub cast_vote-db :
      (players : List MatchPlayer) (r : MatchRow) (w : World)
      → (cast_vote o now m user players r w).1.db
        ≡ then_written
            (if is_some (w.db.find_confirmation m user)
              then some w.db
              else o.save_confirmation m user now w.db)
            w.db
            (after_vote o now m r (length players))
  unfolding cast_vote
  cast_vote-db players r w = ground arith

  cast_vote-IsConsistent :
      (r : MatchRow) (w : World)
      → w.db.find_row m ≡ some r
      → is_awaiting r.status ≡ true
      → IsConsistent w.db
      → IsConsistent (cast_vote o now m user (w.db.find_players m) r w).1.db
  cast_vote-IsConsistent r w found awaiting h =
      rw (cast_vote-db (w.db.find_players m) r w)
        (elim (Option-cases (w.db.find_confirmation m user)) [
          | inl new ↦ rw new (
              guarded_write IsConsistent false (o.save_confirmation m user now w.db) w.db
                (after_vote o now m r (length (w.db.find_players m))) h
                λ _ d saved.
                  let s = laws.save_confirmation m user now w.db d saved in
                  let kept : d.find_row m ≡ some r = rw (s.rows m) found in
                  let same : d.find_players m ≡ w.db.find_players m = s.players m in
                  rw (← same) (
                    after_vote-IsConsistent r d kept awaiting
                      (save_confirmation-IsConsistent w.db d found awaiting new saved h)))
          | inr (c, old) ↦ rw old (after_vote-IsConsistent r w.db found awaiting h)
        ])

  pub locked_vote-IsConsistent :
      (w : World)
      → IsConsistent w.db
      → IsConsistent (locked_vote o now m user (w.db.find_players m) w).1.db
  unfolding locked_vote
  locked_vote-IsConsistent w h = elim (Option-cases (w.db.find_row m)) [
    | inl absent ↦ rw (absent, locked_vote) h
    | inr (r, found) ↦
        rw (found, locked_vote)
          (elim (Bool-cases (is_awaiting r.status)) [
            | inl awaiting ↦ rw awaiting (
                transaction-db IsConsistent (cast_vote o now m user (w.db.find_players m) r) w h
                  (cast_vote-IsConsistent r w found awaiting h))
            | inr other ↦ rw other h
          ])
  ]

  pub publish_newly-db : (x : Option MatchRow) (w : World) → (publish_newly o now m x w).1.db ≡ w.db
  unfolding publish_confirmed
  publish_newly-db x w = ground arith

  unfoldable pub answer_vote : Vote → Action World ConfirmationStatusResult
  answer_vote vote = publish_newly o now m vote.newly_confirmed >> pure vote.answer

  pub answer_vote-db : (vote : Vote) (w : World) → (answer_vote vote w).1.db ≡ w.db
  unfolding answer_vote
  answer_vote-db vote w = ground (arith, publish_newly-db vote.newly_confirmed w)

  unfoldable pub vote_and_answer : List MatchPlayer → Action World ConfirmationStatusResult
  vote_and_answer players = locked_vote o now m user players >>= answer_vote

  vote_and_answer-IsConsistent :
      (w : World) → IsConsistent w.db → IsConsistent (vote_and_answer (w.db.find_players m) w).1.db
  unfolding vote_and_answer
  vote_and_answer-IsConsistent w h =
      subst IsConsistent
        (sym
          (bind-db (locked_vote o now m user (w.db.find_players m)) answer_vote w answer_vote-db))
        (locked_vote-IsConsistent w h)

  pub confirm-IsConsistent :
      (w : World) → IsConsistent w.db → IsConsistent (confirm o now m user w).1.db
  unfolding confirm answer_vote vote_and_answer
  confirm-IsConsistent w h = elim (pre_check-cases m user w) [
    | inl (e, refused) ↦
        let same = bind-err (pre_check m user) vote_and_answer w refused in
        subst (λ x. IsConsistent x.1.db) (sym same) h
    | inr passed ↦
        let same = bind-ok (pre_check m user) vote_and_answer w passed in
        subst (λ x. IsConsistent x.1.db) (sym same) (vote_and_answer-IsConsistent w h)
  ]
