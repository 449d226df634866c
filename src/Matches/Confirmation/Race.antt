-- ===== src/Matches/Confirmation/Race.antt =====
-- Requests for confirmation of one match that overlap. Each has passed its checks, which only
-- read, at any earlier time: its user and the players that it read are arbitrary here. Its locked
-- transaction is one step, since the row's lock keeps the others out, and the publication after
-- the commit is another.
use foosball_api.Prelude.{
  ℕ, suc, ◌+◌, ◌≤◌, ◌<◌, ◌≡◌, ◌⊎◌, refl, ap, inl, inr, true, Option, none, some, List, [], ◌∷◌,
  ◌++◌, arith, Bool-cases, length, length-append, count, count-append,
}
use foosball_api.Http.{Exception, Result, ok, err}
use foosball_api.Events.{announces, queue_matches, queue_leaderboard}
use foosball_api.Matches.Entity.{MatchRow, MatchPlayer, is_awaiting, is_confirmed}
use foosball_api.Matches.Orm.{Orm, OrmLaws}
use foosball_api.Matches.World.{World}
use foosball_api.Matches.Confirmation.{
  Vote, locked_vote, publish_confirmed, confirm_row, confirmed_event, invalidate_event,
}
use foosball_api.Matches.Confirmation.Outcome.{locked_vote-VoteEnds, locked_vote-confirmed}

-- The world, and the confirmed rows whose events are still to be published.
pub record System : Type 0 where
  pub world : World
  pub publishing : List MatchRow

abbrev pub to_publish : Option MatchRow → List MatchRow → List MatchRow
to_publish none rs = rs
to_publish (some r) rs = r ∷ rs

pub data Step (o : Orm) (m : ℕ) : System → System → Type 0 where
  vote :
      (now user : ℕ) (players : List MatchPlayer) {s : System} {v : Vote} {w : World}
      → locked_vote o now m user players s.world ≡ (ok v, w)
      → Step o m s (record { world = w; publishing = to_publish v.newly_confirmed s.publishing })
  vote_fails :
      (now user : ℕ) (players : List MatchPlayer) {s : System} {e : Exception} {w : World}
      → locked_vote o now m user players s.world ≡ (err e, w)
      → Step o m s (record s { world = w })
  -- the publication may fail half-way
  publish :
      (now : ℕ) (rs : List MatchRow) (r : MatchRow) (rest : List MatchRow) {s : System}
      {x : Result (Unit {0})} {w : World}
      → s.publishing ≡ rs ++ r ∷ rest
      → publish_confirmed o now m r s.world ≡ (x, w)
      → Step o m s (record { world = w; publishing = rs ++ rest })

pub data Reach (o : Orm) (m : ℕ) (s : System) : System → Type 0 where
  here : Reach o m s s
  next : {t u : System} → Reach o m s t → Step o m t u → Reach o m s u

-- announcements that are published or under way
abbrev announced : ℕ → System → ℕ
announced m s = count (announces m) s.world.jobs + length s.publishing

-- Still open with no announcement since the start, or confirmed with at most one.
abbrev OnceFrom : ℕ → ℕ → System → Type 0
OnceFrom m base s =
    ((r : MatchRow) × (s.world.db.find_row m ≡ some r)
      × (r.id ≡ m)
      × (is_awaiting r.status ≡ true)
      × (announced m s ≤ base))
    ⊎ ((r : MatchRow) × (s.world.db.find_row m ≡ some r)
        × (is_confirmed r.status ≡ true)
        × (announced m s ≤ suc base))

module _ {o : Orm} (laws : OrmLaws o) (m : ℕ) where
  publish_confirmed-count :
      (now : ℕ) (r : MatchRow) (w : World)
      → count (announces m) (publish_confirmed o now m r w).1.jobs
        ≤ suc (count (announces m) w.jobs)
  unfolding publish_confirmed
  publish_confirmed-count now r w = ground (
    arith,
    count-append (announces m) w.jobs (
        record {
          queue = queue_matches;
          name = "match.confirmed";
          envelope = confirmed_event now m r;
        }
        ∷ []),
    count-append (announces m)
        (w.jobs
          ++ record {
            queue = queue_matches;
            name = "match.confirmed";
            envelope = confirmed_event now m r;
          }
            ∷ [])
        (record {
          queue = queue_leaderboard;
          name = "leaderboard-invalidate";
          envelope = invalidate_event now;
        }
          ∷ []),
  )

  publish_confirmed-db :
      (now : ℕ) (r : MatchRow) (w : World) → (publish_confirmed o now m r w).1.db ≡ w.db
  unfolding publish_confirmed
  publish_confirmed-db now r w = ground arith

  vote-OnceFrom :
      (base now user : ℕ) (players : List MatchPlayer) (s : System) {v : Vote} {w : World}
      → locked_vote o now m user players s.world ≡ (ok v, w)
      → OnceFrom m base s
      → OnceFrom m base
          (record { world = w; publishing = to_publish v.newly_confirmed s.publishing })
  vote-OnceFrom base now user players s {v} e (inl (r, found, keyed, awaiting, few)) =
      let ends =
        rw e at (locked_vote-VoteEnds laws m now user players r s.world found keyed awaiting) in
      elim (Bool-cases v.answer.quorum_reached) [
        | inl reached ↦ inr (confirm_row now r, ground (arith, ends), refl, ground (arith, ends))
        | inr short ↦ inl (r, ground (arith, ends), keyed, awaiting, ground (arith, ends))
      ]
  vote-OnceFrom base now user players s e (inr (r, found, done, few)) =
      let (v', same, none_new) = locked_vote-confirmed laws m now user players s.world found done in
      inr (r, ground arith, done, ground arith)

  fail-OnceFrom :
      (base now user : ℕ) (players : List MatchPlayer) (s : System) {e : Exception} {w : World}
      → locked_vote o now m user players s.world ≡ (err e, w)
      → OnceFrom m base s
      → OnceFrom m base (record s { world = w })
  fail-OnceFrom base now user players s p (inl (r, found, keyed, awaiting, few)) =
      let ends =
        rw p at (locked_vote-VoteEnds laws m now user players r s.world found keyed awaiting) in
      inl (r, ground (arith, ends), keyed, awaiting, ground (arith, ends))
  fail-OnceFrom base now user players s p (inr (r, found, done, few)) =
      let (v', same, none_new) = locked_vote-confirmed laws m now user players s.world found done in
      cc

  publish-OnceFrom :
      (base now : ℕ) (rs : List MatchRow) (q : MatchRow) (rest : List MatchRow) (s : System)
      {x : Result (Unit {0})} {w : World}
      → s.publishing ≡ rs ++ q ∷ rest
      → publish_confirmed o now m q s.world ≡ (x, w)
      → OnceFrom m base s
      → OnceFrom m base (record { world = w; publishing = rs ++ rest })
  publish-OnceFrom base now rs q rest s {w} split sent once =
      let count_le : count (announces m) w.jobs ≤ suc (count (announces m) s.world.jobs) =
        rw sent at (publish_confirmed-count now q s.world) in
      let same_db : w.db ≡ s.world.db = rw sent at (publish_confirmed-db now q s.world) in
      let one_less : length s.publishing ≡ suc (length (rs ++ rest)) = omega (
        arith,
        ap (λ (l : List MatchRow). length l) split,
        length-append rs (q ∷ rest),
        length-append rs rest,
      ) in
      elim once [
        | inl (r, found, keyed, awaiting, few) ↦
            inl (r, rw same_db found, keyed, awaiting, omega arith)
        | inr (r, found, done, few) ↦ inr (r, rw same_db found, done, omega arith)
      ]

  Step-OnceFrom : (base : ℕ) {s t : System} → Step o m s t → OnceFrom m base s → OnceFrom m base t
  Step-OnceFrom base {s} (vote now user players e) once =
      vote-OnceFrom base now user players s e once
  Step-OnceFrom base {s} (vote_fails now user players e) once =
      fail-OnceFrom base now user players s e once
  Step-OnceFrom base {s} (publish now rs q rest split sent) once =
      publish-OnceFrom base now rs q rest s split sent once

  Reach-OnceFrom : (base : ℕ) {s t : System} → OnceFrom m base s → Reach o m s t → OnceFrom m base t
  Reach-OnceFrom base once here = once
  Reach-OnceFrom base once (next reach step) =
      Step-OnceFrom base step (Reach-OnceFrom base once reach)

  -- However many confirmation requests of a match that awaits confirmation overlap, in whatever
  -- order and whichever of their transactions and publications fail, `match.confirmed` is
  -- published for the match at most once more; and the match is confirmed if it is published.
  pub confirmed_at_most_once :
      (w : World) (r : MatchRow) (t : System)
      → w.db.find_row m ≡ some r
      → r.id ≡ m
      → is_awaiting r.status ≡ true
      → Reach o m (record { world = w; publishing = [] }) t
      → (count (announces m) t.world.jobs ≤ suc (count (announces m) w.jobs))
        × (count (announces m) w.jobs < count (announces m) t.world.jobs
            → (r' : MatchRow) × (t.world.db.find_row m ≡ some r') × (is_confirmed r'.status ≡ true))
  confirmed_at_most_once w r t found keyed awaiting reach =
      let once =
        Reach-OnceFrom (count (announces m) w.jobs) (inl (r, found, keyed, awaiting, omega arith))
          reach in
      elim once [
        | inl (r', found', keyed', awaiting', few) ↦ (omega arith, λ more. absurd (omega arith))
        | inr (r', found', done, few) ↦ (omega arith, λ _. (r', found', done))
      ]
