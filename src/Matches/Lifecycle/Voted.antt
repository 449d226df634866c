-- ===== src/Matches/Lifecycle/Voted.antt =====
-- What the state machine says of every match that gets confirmed, and of every match that goes.
use foosball_api.Prelude.{
  ℕ, ◌≡◌, refl, inl, inr, arith, Bool, true, false, ◌&&◌, Option, none, some, List, ◌==◌, any,
  is_some, Bool-cases,
}
use foosball_api.Matches.Entity.{MatchRow, is_confirmed}
use foosball_api.Matches.Orm.{Orm, OrmLaws}
use foosball_api.Matches.World.{World}
use foosball_api.Matches.Requests.{
  Caller, Request, confirm_result, delete_match, admin_delete_match, serve,
}
use foosball_api.Matches.Invariant.Defs.{IsConsistent}
use foosball_api.Matches.Lifecycle.{Stage, stage_of, Move, Moves}
use foosball_api.Matches.Lifecycle.History.{serve-Moves}

abbrev pub is_vote : ℕ → ℕ × Caller × Request → Bool
is_vote m (now, c, confirm_result k) = k == m
is_vote m _ = false

abbrev pub is_removal : ℕ → ℕ × Caller × Request → Bool
is_removal m (now, c, delete_match k) = c.is_admin && k == m
is_removal m (now, c, admin_delete_match k) = c.is_admin && k == m
is_removal m _ = false

abbrev pub confirmed_at : Option Stage → Bool
confirmed_at none = false
confirmed_at (some s) = is_confirmed s.status

is_some-stage_of : (x : Option MatchRow) → is_some (stage_of x) ≡ is_some x
is_some-stage_of none = refl
is_some-stage_of (some r) = refl

module _ (m : ℕ) (now : ℕ) (c : Caller) {x y : Option Stage} where
  Move-vote :
      {q : Request}
      → Move m c x y q
      → confirmed_at x ≡ false
      → confirmed_at y ≡ true
      → is_vote m (now, c, q) ≡ true
  Move-vote (Move.stay q same) before after = absurd (ground (arith, before, after, same))
  Move-vote (Move.begin dto from to) before after = absurd (ground (arith, after, to))
  Move-vote (Move.start s dto from at creator to) before after = absurd (ground (arith, after, to))
  Move-vote (Move.submit s dto from at creator to) before after = absurd (ground (arith, after, to))
  Move-vote (Move.confirm s from at to) before after = ground arith
  Move-vote (Move.reopen s from at creator to) before after = absurd (ground (arith, after, to))
  Move-vote (Move.remove s admin from to) before after = absurd (ground (arith, after, to))
  Move-vote (Move.remove_any s admin from to) before after = absurd (ground (arith, after, to))

  Move-removal :
      {q : Request}
      → Move m c x y q
      → is_some x ≡ true
      → is_some y ≡ false
      → is_removal m (now, c, q) ≡ true
  Move-removal (Move.stay q same) before after = absurd (ground (arith, before, after, same))
  Move-removal (Move.begin dto from to) before after = absurd (ground (arith, after, to))
  Move-removal (Move.start s dto from at creator to) before after =
      absurd (ground (arith, after, to))
  Move-removal (Move.submit s dto from at creator to) before after =
      absurd (ground (arith, after, to))
  Move-removal (Move.confirm s from at to) before after = absurd (ground (arith, after, to))
  Move-removal (Move.reopen s from at creator to) before after = absurd (ground (arith, after, to))
  Move-removal (Move.remove s admin from to) before after = ground arith
  Move-removal (Move.remove_any s admin from to) before after = ground arith

Moves-vote :
    (m : ℕ) {qs : List (ℕ × Caller × Request)} {x z : Option Stage}
    → Moves m qs x z
    → confirmed_at x ≡ false
    → confirmed_at z ≡ true
    → any (is_vote m) qs ≡ true
Moves-vote m (Moves.here x) before after = absurd (ground (arith, before, after))
Moves-vote m (Moves.next now c q {y = y} move moves) before after =
    elim (Bool-cases (confirmed_at y)) [
      | inl done ↦ ground (arith, Move-vote m now c move before done)
      | inr open_yet ↦ ground (arith, Moves-vote m moves open_yet after)
    ]

Moves-removal :
    (m : ℕ) {qs : List (ℕ × Caller × Request)} {x z : Option Stage}
    → Moves m qs x z
    → is_some x ≡ true
    → is_some z ≡ false
    → any (is_removal m) qs ≡ true
Moves-removal m (Moves.here x) before after = absurd (ground (arith, before, after))
Moves-removal m (Moves.next now c q {y = y} move moves) before after =
    elim (Bool-cases (is_some y)) [
      | inr gone ↦ ground (arith, Move-removal m now c move before gone)
      | inl there ↦ ground (arith, Moves-removal m moves there after)
    ]

module _ {o : Orm} (laws : OrmLaws o) (m : ℕ) (qs : List (ℕ × Caller × Request)) (w : World)
    (h : IsConsistent w.db) where
  -- In every history of requests over a consistent database, whatever writes fail: a match that
  -- is not confirmed before and is confirmed afterwards was voted on, by a request to confirm its
  -- result.
  pub confirmed_by_vote :
      confirmed_at (stage_of (w.db.find_row m)) ≡ false
      → confirmed_at (stage_of ((serve o qs w).db.find_row m)) ≡ true
      → any (is_vote m) qs ≡ true
  confirmed_by_vote = Moves-vote m (serve-Moves laws m qs w h)

  -- In every history of requests over a consistent database, whatever writes fail: a match that
  -- exists before and not afterwards was removed, by a request of an administrator to delete it.
  removed_by_admin :
      is_some (w.db.find_row m) ≡ true
      → is_some ((serve o qs w).db.find_row m) ≡ false
      → any (is_removal m) qs ≡ true
  removed_by_admin before after =
      Moves-removal m (serve-Moves laws m qs w h)
        (ground (arith, is_some-stage_of (w.db.find_row m), before))
        (ground (arith, is_some-stage_of ((serve o qs w).db.find_row m), after))
