-- ===== src/Matches/Confirmation/Voting.antt =====
-- A confirmation while the database is up.
use mathlib.Core.Path.{subst}
use foosball_api.Prelude.{
  ℕ, suc, ◌≡◌, ◌∙◌, refl, sym, ap, true, false, none, some, List, leb, ◌==◌, length, is_some, inl,
  inr, arith, Option-cases, Bool-cases, if◌then◌else◌,
}
use foosball_api.Http.{Result}
use foosball_api.Action.{◌>>=◌, bind-ok}
use foosball_api.Matches.Entity.{MatchRow, MatchPlayer, is_awaiting}
use foosball_api.Matches.Orm.{Tables, Orm, OrmLaws}
use foosball_api.Matches.Orm.At.{save_confirmation_at}
use foosball_api.Matches.World.{World, transaction}
use foosball_api.Matches.Confirmation.{
  Vote, ConfirmationStatusResult, calculate_quorum, is_player, pre_check, confirm_row, cast_vote,
  locked_vote, confirm,
}
use foosball_api.Matches.Confirmation.Outcome.{locked_vote-awaiting}
use foosball_api.Matches.Confirmation.Ends.{pre_check-passes, answer_vote}
use foosball_api.Matches.Invariant.Votes.{bind-db, publish_newly-db, count-by_user}

-- The database's answers while it is up: the writes of `confirm` are not rejected.
pub record IsUp (o : Orm) : Type 0 where
  pub save_confirmation :
      (m u now : ℕ) (d : Tables) → is_some (o.save_confirmation m u now d) ≡ true
  pub save_match : (r : MatchRow) (d : Tables) → is_some (o.save_match r none d) ≡ true
  pub commits : (d : Tables) → o.commits d ≡ true

-- the tables after a vote of a user who had none
pub record Voted (m user now : ℕ) (r : MatchRow) (d d' : Tables) : Type 0 where
  pub players : d'.find_players m ≡ d.find_players m
  pub one_more : length (d'.find_confirmations m) ≡ suc (length (d.find_confirmations m))
  pub others :
      (v : ℕ)
      → (v == user) ≡ false
      → is_some (d'.find_confirmation m v) ≡ is_some (d.find_confirmation m v)
  pub row :
      d'.find_row m
      ≡ some (
          if leb
            (calculate_quorum (length (d.find_players m)))
            (suc (length (d.find_confirmations m)))
          then confirm_row now r
          else r)

module _ {o : Orm} (laws : OrmLaws o) (m user now : ℕ) (r : MatchRow) (d d₁ : Tables) where
  one_more_vote :
      d.find_confirmation m user ≡ none
      → o.save_confirmation m user now d ≡ some d₁
      → length (d₁.find_confirmations m) ≡ suc (length (d.find_confirmations m))
  one_more_vote new saved = ground (
    arith,
    save_confirmation_at laws d m user m user now new,
    count-by_user (d.find_confirmations m),
    count-by_user (d₁.find_confirmations m),
  )

  Voted-short :
      d.find_row m ≡ some r
      → d.find_confirmation m user ≡ none
      → o.save_confirmation m user now d ≡ some d₁
      → leb (calculate_quorum (length (d.find_players m))) (length (d₁.find_confirmations m))
        ≡ false
      → Voted m user now r d d₁
  Voted-short found new saved short =
      let s = laws.save_confirmation m user now d d₁ saved in
      let more = one_more_vote new saved in
      record {
        players = s.players m;
        one_more = more;
        others = λ v other. ground (arith, s.found m v, other);
        row = s.rows m ∙ found ∙ rw (← more) (rw short refl);
      }

  Voted-reached :
      {d₂ : Tables}
      → r.id ≡ m
      → d.find_confirmation m user ≡ none
      → o.save_confirmation m user now d ≡ some d₁
      → o.save_match (confirm_row now r) none d₁ ≡ some d₂
      → leb (calculate_quorum (length (d.find_players m))) (length (d₁.find_confirmations m)) ≡ true
      → Voted m user now r d d₂
  Voted-reached {d₂} keyed new saved written reached =
      let s = laws.save_confirmation m user now d d₁ saved in
      let t = laws.save_match (confirm_row now r) none d₁ d₂ written in
      let more = one_more_vote new saved in
      record {
        players = t.players (inl refl) m ∙ s.players m;
        one_more = ap length (t.confirmations.0 m) ∙ more;
        others = λ v other. ap is_some (t.confirmations.1 m v) ∙ ground (arith, s.found m v, other);
        row = t.row m ∙ rw (← more) (rw reached (ground (arith, keyed)));
      }

module _ {o : Orm} (laws : OrmLaws o) (up : IsUp o) (now m user : ℕ) (r : MatchRow)
    (w : World) where
  cast_vote-Voted :
      w.db.find_row m ≡ some r
      → r.id ≡ m
      → w.db.find_confirmation m user ≡ none
      → Voted m user now r w.db
          (transaction (cast_vote o now m user (w.db.find_players m) r) w).1.db
  unfolding cast_vote
  cast_vote-Voted found keyed new = elim (Option-cases (o.save_confirmation m user now w.db)) [
    | inl failed ↦ absurd (ground (arith, up.save_confirmation m user now w.db))
    | inr (d, saved) ↦
        let ends = (transaction (cast_vote o now m user (w.db.find_players m) r) w).1.db in
        elim (Bool-cases (
          leb (calculate_quorum (length (w.db.find_players m)))
            (length (d.find_confirmations m)))) [
              | inr short ↦
                  let same : ends ≡ d = ground (arith, up.commits d) in
                  rw same (Voted-short laws m user now r w.db d found new saved short)
              | inl reached ↦ elim (Option-cases (o.save_match (confirm_row now r) none d)) [
                | inl failed ↦ absurd (ground (arith, up.save_match (confirm_row now r) d))
                | inr (d', written) ↦
                    let same : ends ≡ d' = ground (arith, up.commits d') in
                    rw same (Voted-reached laws m user now r w.db d keyed new saved written reached)
              ]
            ]
  ]

  pub confirm-Voted :
      w.db.find_row m ≡ some r
      → r.id ≡ m
      → is_awaiting r.status ≡ true
      → is_player user (w.db.find_players m) ≡ true
      → w.db.find_confirmation m user ≡ none
      → Voted m user now r w.db (confirm o now m user w).1.db
  unfolding confirm
  confirm-Voted found keyed awaiting player new =
      let players = w.db.find_players m in
      let vote = λ (ps : List MatchPlayer). locked_vote o now m user ps >>= answer_vote o now m in
      let passed =
        bind-ok (pre_check m user) vote w (pre_check-passes m user r w found awaiting player) in
      let answered =
        bind-db (locked_vote o now m user players) (answer_vote o now m) w
          (λ v w'. ground (arith, publish_newly-db laws now m user v.newly_confirmed w')) in
      let locked = locked_vote-awaiting laws m now user players r w found awaiting in
      subst (Voted m user now r w.db)
        (sym (
          ap (λ (x : Result ConfirmationStatusResult × World). x.1.db) passed
          ∙ answered
          ∙ ap (λ (x : Result Vote × World). x.1.db) locked))
        (cast_vote-Voted found keyed new)
