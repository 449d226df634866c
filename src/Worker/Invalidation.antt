-- ===== src/Worker/Invalidation.antt =====
-- The worker's invalidation against the API's cache.
use Prim.Native.String.{◌++◌}
use text.Mathlib.TextLemmas.{append_cancel_right}
use text.Mathlib.TextPositions.{eq_refl}
use foosball_api.Prelude.{
  ◌≡◌, ◌⊎◌, inl, inr, Option-cases, refl, true, ◌||◌, none, String, List, [], ◌∷◌, ◌++◌ as ◌+++◌,
  arith, ◌∙◌, sym,
}
use foosball_api.Http.{ok, err, error}
use foosball_api.Events.{
  EventEnvelope, LeaderboardInvalidatePayload, TimeFilter, week, month, year, total,
}
use foosball_api.Redis.{contains, Cache, Redis, RedisLaws}
use foosball_api.Leaderboard.{Scope, users, pairs, filter_text, scope_text, cache_key}
use foosball_api.Worker.{
  worker_key, scope_keys, keys_to_delete, delete_keys, process_leaderboard_invalidate,
}

-- is the filter in the list, by its text
abbrev pub Affects : TimeFilter → List TimeFilter → Type 0
Affects f [] = ⊥
Affects f (g ∷ gs) = (f ≡ g) ⊎ Affects f gs

pub key-default :
    (scope : Scope) (f : TimeFilter)
    → worker_key "leaderboard" (scope_text scope) f ≡ cache_key scope f
key-default users week = refl
key-default users month = refl
key-default users year = refl
key-default users total = refl
key-default pairs week = refl
key-default pairs month = refl
key-default pairs year = refl
key-default pairs total = refl

contains-append :
    (k : String) (xs ys : List String) → contains k (xs +++ ys) ≡ contains k xs || contains k ys
contains-append k [] ys = refl
contains-append k (x ∷ xs) ys = ground (arith, contains-append k xs ys)

contains-scope_keys :
    (scope : Scope) (f : TimeFilter) (fs : List TimeFilter)
    → Affects f fs
    → contains (cache_key scope f) (scope_keys "leaderboard" (scope_text scope) fs) ≡ true
contains-scope_keys scope f [] h = elim h [ ]
contains-scope_keys scope f (g ∷ gs) (inl same) =
    rw (← same) (rw (key-default scope f) (rw (eq_refl (cache_key scope f))))
contains-scope_keys scope f (g ∷ gs) (inr later) =
    ground (arith, contains-scope_keys scope f gs later)

contains-keys_to_delete :
    (scope : Scope) (f : TimeFilter) (fs : List TimeFilter)
    → Affects f fs
    → contains (cache_key scope f) (keys_to_delete "leaderboard" fs) ≡ true
contains-keys_to_delete users f fs h =
    rw contains-append (ground (arith, contains-scope_keys users f fs h))
contains-keys_to_delete pairs f fs h =
    rw contains-append (ground (arith, contains-scope_keys pairs f fs h))

delete_keys-cases :
    {redis : Redis} (laws : RedisLaws redis) (ks : List String) (c : Cache) (k : String)
    → let (r, c') = delete_keys redis ks c in
      ((r ≡ ok tt) × (contains k ks ≡ true → c'.lookup k ≡ none)) ⊎ ((r ≡ err error) × (c' ≡ c))
delete_keys-cases laws [] c k = inl (refl, λ h. cc)
delete_keys-cases {redis} laws (x ∷ xs) c k = elim (Option-cases (redis.del (x ∷ xs) c)) [
  | inl failed ↦ rw (failed, delete_keys) (inr (refl, refl))
  | inr (c', deleted) ↦
      rw (deleted, delete_keys) (inl (refl, λ h. rw h at (laws.del (x ∷ xs) c c' deleted k)))
]

-- With the default prefix an invalidation job of version 1 clears what the API has cached, for
-- both kinds of leaderboard and every filter that the job names; or it throws, to be retried,
-- with the cache as it was.
pub worker_clears_api_cache :
    {redis : Redis} (laws : RedisLaws redis) (e : EventEnvelope LeaderboardInvalidatePayload)
    (scope : Scope) (f : TimeFilter) (c : Cache)
    → e.version ≡ 1
    → Affects f e.payload.affected_filters
    → let (r, c') = process_leaderboard_invalidate "leaderboard" redis e c in
      ((r ≡ ok tt) × (c'.lookup (cache_key scope f) ≡ none)) ⊎ ((r ≡ err error) × (c' ≡ c))
unfolding process_leaderboard_invalidate
worker_clears_api_cache {redis} laws e scope f c first affected =
    let keys = keys_to_delete "leaderboard" e.payload.affected_filters in
    let known = contains-keys_to_delete scope f e.payload.affected_filters affected in
    rw first (elim (delete_keys-cases laws keys c (cache_key scope f)) [
      | inl (done, cleared) ↦ inl (done, cleared known)
      | inr failed ↦ inr failed
    ])

-- The key that the worker deletes for a kind of leaderboard and a filter is the one under which
-- the API caches it only with the default prefix.
pub key-prefix :
    (prefix : String) (scope : Scope) (f : TimeFilter)
    → worker_key prefix (scope_text scope) f ≡ cache_key scope f
    → prefix ≡ "leaderboard"
key-prefix prefix scope f same =
    append_cancel_right prefix "leaderboard" (":" ++ scope_text scope ++ ":" ++ filter_text f)
      (same ∙ sym (key-default scope f))
