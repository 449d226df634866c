-- ===== src/Flow/Jobs.antt =====
-- The worker at a list of jobs whose last is the invalidation of a quorum.
use foosball_api.Prelude.{ℕ, ◌≡◌, inl, inr, refl, sym, ◌∙◌, ap, none, String, List, [], ◌∷◌, ◌++◌}
use foosball_api.Http.{Exception, Result, ok, err}
use foosball_api.Action.{bind-ok, bind-err, Outcome-cases}
use foosball_api.Events.{
  EventEnvelope, LeaderboardInvalidatePayload, Job, TimeFilter, week, month, year, total,
}
use foosball_api.Matches.Confirmation.Ends.{invalidate_job}
use foosball_api.Redis.{Cache, Redis, RedisLaws}
use foosball_api.Leaderboard.{Scope, cache_key}
use foosball_api.Worker.Invalidation.{Affects, worker_clears_api_cache}
use foosball_api.Flow.{process, process_of, consume}

failed-done :
    {A : Type 0} {y : Result A × Cache} {x : Exception} {s s' : Cache} {a : A}
    → y ≡ (err x, s)
    → y ≡ (ok a, s')
    → ⊥
failed-done failed done = cc

ok-not-err : {A : Type 0} {x : Exception} {a : A} → ok a ≡ err x → ⊥
ok-not-err e = cc

module _ (prefix : String) (redis : Redis) where
  -- if all the jobs are done, then so is the last, after the others
  consume-last :
      (js : List Job) (j : Job) (c : Cache) {c' : Cache}
      → consume prefix redis (js ++ j ∷ []) c ≡ (ok tt, c')
      → (c₁ : Cache) × (process_of prefix redis j.queue j.envelope c₁ ≡ (ok tt, c'))
  unfolding consume
  consume-last [] j c {c'} done =
      let step = process_of prefix redis j.queue j.envelope in
      let rest = λ (_ : Unit {0}). consume prefix redis [] in
      elim (Outcome-cases (step c)) [
        | inl (u, c₁, e) ↦ (c, e ∙ sym (bind-ok step rest c e) ∙ done)
        | inr (x, c₁, e) ↦ absurd (failed-done (bind-err step rest c e) done)
      ]
  consume-last (i ∷ js) j c {c'} done =
      let step = process_of prefix redis i.queue i.envelope in
      let rest = λ (_ : Unit {0}). consume prefix redis (js ++ j ∷ []) in
      elim (Outcome-cases (step c)) [
        | inl (u, c₁, e) ↦ consume-last js j c₁ (sym (bind-ok step rest c e) ∙ done)
        | inr (x, c₁, e) ↦ absurd (failed-done (bind-err step rest c e) done)
      ]

Affects-all : (f : TimeFilter) → Affects f (week ∷ month ∷ year ∷ total ∷ [])
Affects-all week = inl refl
Affects-all month = inr (inl refl)
Affects-all year = inr (inr (inl refl))
Affects-all total = inr (inr (inr (inl refl)))

pub consume-clears :
    {redis : Redis} (laws : RedisLaws redis) (now : ℕ) (scope : Scope) (f : TimeFilter)
    (js : List Job) (c : Cache) {c' : Cache}
    → consume "leaderboard" redis (js ++ invalidate_job now ∷ []) c ≡ (ok tt, c')
    → c'.lookup (cache_key scope f) ≡ none
unfolding process
consume-clears {redis} laws now scope f js c {c'} done =
    let (c₁, last) = consume-last "leaderboard" redis js (invalidate_job now) c done in
    let event : EventEnvelope LeaderboardInvalidatePayload = record {
      event_type = "leaderboard-invalidate";
      version = 1;
      occurred_at = now;
      payload = record {
        reason = "match.confirmed";
        affected_filters = week ∷ month ∷ year ∷ total ∷ [];
      };
    } in
    elim (worker_clears_api_cache laws event scope f c₁ refl (Affects-all f)) [
      | inl (answered, cleared) ↦ rw (ap (λ (x : Result (Unit {0}) × Cache). x.1) last) at cleared
      | inr (failed, same) ↦
          absurd (ok-not-err (sym (ap (λ (x : Result (Unit {0}) × Cache). x.0) last) ∙ failed))
    ]
