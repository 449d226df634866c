-- ===== src/Leaderboard/Queries/Wins.antt =====
-- What a win is, said of the tables: the reference for the two queries.
use foosball_api.Prelude.{
  ℕ, ◌≡◌, ◌∙◌, refl, sym, Bool, true, false, ◌&&◌, Option, none, some, List, [], ◌∷◌, ltb, ◌==◌,
  any, count, arith, inl, inr, Bool-cases,
}
use foosball_api.Matches.Entity.{MatchRow, MatchPlayer, Team, team_a, team_b, is_confirmed}
use foosball_api.Leaderboard.Queries.{Base, decided, since, counts, winning_team, is_team, won_by}
use foosball_api.Leaderboard.Queries.Counting.{any-none}

-- does the team have the greater of two scores
abbrev pub ahead : Option ℕ → Option ℕ → Team → Bool
ahead (some a) (some b) team_a = ltb b a
ahead (some a) (some b) team_b = ltb a b
ahead _ _ _ = false

-- did the user play in the match, in the team with the greater score
unfoldable pub won : Base → ℕ → MatchRow → Bool
won base v m =
    any
      (λ (p : MatchPlayer).
        p.match_id == m.id && p.user_id == v && ahead m.score_a m.score_b p.team)
      base.players

-- was the match confirmed in the period
abbrev pub in_period : Option ℕ → MatchRow → Bool
in_period start m = is_confirmed m.status && since start m.confirmed_at

unfoldable pub matches_won : Base → Option ℕ → ℕ → ℕ
matches_won base start v = count (λ (m : MatchRow). in_period start m && won base v m) base.matches

unfoldable pub won_together : Base → Option ℕ → ℕ → ℕ → ℕ
won_together base start a b =
    count (λ (m : MatchRow). in_period start m && (won base b m && won base a m)) base.matches

is_team-winning_team : (a b : Option ℕ) (t : Team) → is_team (winning_team a b) t ≡ ahead a b t
is_team-winning_team none b t = refl
is_team-winning_team (some a) none t = refl
is_team-winning_team (some a) (some b) team_a = ground arith
is_team-winning_team (some a) (some b) team_b = ground arith

ahead-decided : (a b : Option ℕ) (t : Team) → decided a b ≡ false → ahead a b t ≡ false
ahead-decided none b t even = refl
ahead-decided (some a) none t even = refl
ahead-decided (some a) (some b) team_a even = ground (arith, even)
ahead-decided (some a) (some b) team_b even = ground (arith, even)

pub and_swap : (r s t : Bool) → ((r && s) && t) ≡ ((r && t) && s)
and_swap true true true = refl
and_swap true true false = refl
and_swap true false true = refl
and_swap true false false = refl
and_swap false s t = refl

and_false : (b : Bool) → (b && false) ≡ false
and_false true = refl
and_false false = refl

drop_true : (r s y : Bool) → ((r && true && s) && y) ≡ ((r && s) && y)
drop_true true s y = refl
drop_true false s y = refl

any-cong :
    {A : Type 0} {p q : A → Bool} → ((x : A) → p x ≡ q x) → (xs : List A) → any p xs ≡ any q xs
any-cong same [] = refl
any-cong same (x ∷ xs) = ground (arith, same x, any-cong same xs)

module _ (base : Base) where
  -- the join's test and the reference agree
  pub won_by-won :
      (v : ℕ) (m : MatchRow)
      → any (λ (p : MatchPlayer). won_by m p && p.user_id == v) base.players ≡ won base v m
  unfolding won won_by
  won_by-won v m =
      any-cong
        (λ p.
          rw (is_team-winning_team m.score_a m.score_b p.team)
            (and_swap (p.match_id == m.id) (ahead m.score_a m.score_b p.team) (p.user_id == v)))
        base.players

  pub won-decided :
      (v : ℕ) (m : MatchRow) → decided m.score_a m.score_b ≡ false → won base v m ≡ false
  unfolding won
  won-decided v m even =
      any-none
        (λ (p : MatchPlayer).
          p.match_id == m.id && p.user_id == v && ahead m.score_a m.score_b p.team)
        (λ p.
          rw (ahead-decided m.score_a m.score_b p.team even)
            (and_false (p.match_id == m.id && p.user_id == v)))
        base.players

-- what the WHERE asks for beyond the period, what needs a winner has
pub counts-decided :
    (start : Option ℕ) (m : MatchRow) (y : Bool)
    → (decided m.score_a m.score_b ≡ false → y ≡ false)
    → (counts start m && y) ≡ (in_period start m && y)
unfolding counts
counts-decided start m y needs = elim (Bool-cases (decided m.score_a m.score_b)) [
  | inl decisive ↦ rw decisive (drop_true (is_confirmed m.status) (since start m.confirmed_at) y)
  | inr even ↦ rw (needs even) (
      and_false (is_confirmed m.status && decided m.score_a m.score_b && since start m.confirmed_at)
      ∙ sym (and_false (in_period start m)))
]
