-- ===== src/Matches/Confirmation/Progress.antt =====
-- Confirmations that do not fail lead to a confirmed match.
use foosball_api.Prelude.{
  Every, ℕ, suc, ◌+◌, ◌≤◌, ◌<◌, ◌≡◌, ◌∙◌, refl, ap, true, false, Option, none, some, List, [], ◌∷◌,
  leb, ◌==◌, length, is_some, inl, inr, arith, Bool-cases,
}
use foosball_api.Matches.Entity.{MatchRow, is_awaiting, is_confirmed}
use foosball_api.Matches.Orm.{Orm, OrmLaws}
use foosball_api.Matches.World.{World}
use foosball_api.Matches.Confirmation.{calculate_quorum, is_player, pre_check, confirm_row, confirm}
use foosball_api.Matches.Confirmation.Voting.{IsUp, Voted, confirm-Voted}

confirm_too_late :
    (o : Orm) (now m user : ℕ) {r : MatchRow} (w : World)
    → w.db.find_row m ≡ some r
    → is_awaiting r.status ≡ false
    → (confirm o now m user w).1 ≡ w
unfolding confirm pre_check
confirm_too_late o now m user w found late = ground arith

is_some-none : {A : Type 0} (x : Option A) → is_some x ≡ false → x ≡ none
is_some-none none h = refl
is_some-none (some a) h = absurd (ground (arith, h))

-- the calls of `confirm` of a list of voters, each a time and a user; a call that throws is
-- answered with its error and the next one runs
unfoldable pub confirm_all : Orm → ℕ → List (ℕ × ℕ) → World → World
confirm_all o m [] w = w
confirm_all o m ((now, user) ∷ voters) w = confirm_all o m voters (confirm o now m user w).1

-- no user is twice among the voters
abbrev pub Apart : List (ℕ × ℕ) → Type 0
Apart [] = Unit {0}
Apart (v ∷ vs) = Every (λ (x : ℕ × ℕ). (x.1 == v.1) ≡ false) vs × Apart vs

abbrev pub MayVote : ℕ → World → ℕ × ℕ → Type 0
MayVote m w v =
    (is_player v.1 (w.db.find_players m) ≡ true) × (is_some (w.db.find_confirmation m v.1) ≡ false)

stays_confirmed :
    (o : Orm) (m : ℕ) (voters : List (ℕ × ℕ)) {r : MatchRow} (w : World)
    → w.db.find_row m ≡ some r
    → is_awaiting r.status ≡ false
    → confirm_all o m voters w ≡ w
unfolding confirm_all
stays_confirmed o m [] w found late = refl
stays_confirmed o m ((now, user) ∷ voters) w found late =
    let same = confirm_too_late o now m user w found late in
    ap (confirm_all o m voters) same ∙ stays_confirmed o m voters w found late

-- who may vote and is another user may still vote
MayVote-after :
    {m user now : ℕ} {r : MatchRow} (w w' : World)
    → Voted m user now r w.db w'.db
    → (voters : List (ℕ × ℕ)) → Every (MayVote m w) voters
    → Every (λ (x : ℕ × ℕ). (x.1 == user) ≡ false) voters
    → Every (MayVote m w') voters
MayVote-after w w' v [] may others = tt
MayVote-after w w' v (x ∷ xs) ((player, new), may) (other, others) =
    ((rw v.players player, v.others x.1 other ∙ new), MayVote-after w w' v xs may others)

-- While the database is up: voters of an awaiting match that stands under its id, each a player
-- without a confirmation and no user twice, who are together with the stored confirmations, fewer
-- than a quorum before, as many as the quorum, confirm the match, in whatever order they call.
pub quorum_confirms :
    {o : Orm} (laws : OrmLaws o) (up : IsUp o) (m : ℕ) (voters : List (ℕ × ℕ)) (r : MatchRow)
    (w : World)
    → w.db.find_row m ≡ some r
    → r.id ≡ m
    → is_awaiting r.status ≡ true
    → Every (MayVote m w) voters
    → Apart voters
    → length (w.db.find_confirmations m) < calculate_quorum (length (w.db.find_players m))
    → calculate_quorum (length (w.db.find_players m))
      ≤ length (w.db.find_confirmations m) + length voters
    → (r' : MatchRow) × ((confirm_all o m voters w).db.find_row m ≡ some r')
      × (is_confirmed r'.status ≡ true)
unfolding confirm_all
quorum_confirms laws up m [] r w found keyed awaiting may apart few enough =
    absurd (omega (arith, few, enough))
quorum_confirms {o} laws up m ((now, user) ∷ voters) r w found keyed awaiting ((player, new), may)
      (others, apart) few enough =
    let w' = (confirm o now m user w).1 in
    let no_vote : w.db.find_confirmation m user ≡ none =
      is_some-none (w.db.find_confirmation m user) new in
    let v = confirm-Voted laws up now m user r w found keyed awaiting player no_vote in
    elim (Bool-cases (
      leb (calculate_quorum (length (w.db.find_players m)))
        (suc (length (w.db.find_confirmations m))))) [
          | inl reached ↦
              let row : w'.db.find_row m ≡ some (confirm_row now r) = rw reached at v.row in
              let same = stays_confirmed o m voters w' row refl in
              (confirm_row now r, rw same row, refl)
          | inr short ↦
              let row : w'.db.find_row m ≡ some r = rw short at v.row in
              quorum_confirms laws up m voters r w' row keyed awaiting
                (MayVote-after w w' v voters may others) apart
                (rw (v.players, v.one_more) (ground (arith, short)))
                (rw (v.players, v.one_more) (omega (arith, enough)))
        ]
