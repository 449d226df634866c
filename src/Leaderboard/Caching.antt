-- ===== src/Leaderboard/Caching.antt =====
-- The cache of the leaderboards.
use text.Mathlib.Text.{◌==◌ as str_eq}
use text.Mathlib.TextEquality.{eq_iff}
use text.Mathlib.TextPositions.{eq_refl}
use foosball_api.Prelude.{
  ℕ, suc, ◌+◌, ◌≡◌, ◌≢◌, refl, ap, ◌∙◌, true, false, none, some, Option, String, List, [], ◌∷◌,
  arith, Option-cases, Bool-cases, ◌⊎◌, inl, inr,
}
use foosball_api.Events.{TimeFilter, week, month, year, total}
use foosball_api.Redis.{contains, Cache, Redis, RedisLaws}
use foosball_api.Leaderboard.{
  Scope, users, pairs, hit, miss, bypass, cache_ttl, cache_key, cache_keys, Json, CachedResult,
  LeaderboardResult, ranked_from, fresh, query_and_store, get_leaderboard, invalidate_cache,
}

abbrev pub get_elem? {ℓ} : {A : Type ℓ} → List A → ℕ → Option A
get_elem? [] i = none
get_elem? (x ∷ xs) ℕ.zero = some x
get_elem? (x ∷ xs) (suc i) = get_elem? xs i

-- The ranks are 1, 2, 3, … in the order of the query's rows: entry `k` has rank `i + k + 1`
-- where the numbering starts after `i`.
pub rank_at :
    {W E : Type 0} (to_rank : ℕ → W → E) (i k : ℕ) (wins : List W) {e : W}
    → get_elem? wins k ≡ some e
    → get_elem? (ranked_from to_rank i wins) k ≡ some (to_rank (suc (i + k)) e)
unfolding ranked_from
rank_at to_rank i k [] h = cc
rank_at to_rank i ℕ.zero (e ∷ wins) h = ground arith
rank_at to_rank i (suc k) (e ∷ wins) {e = x} h =
    let shift : suc i + k ≡ i + suc k = omega arith in
    rw (← shift) (rank_at to_rank (suc i) k wins h)

module _ (redis : Redis) {W E : Type 0} (to_rank : ℕ → W → E) (json : Json (CachedResult E)) where
  -- the three ways in which a call answers
  abbrev pub Answered :
      ℕ
      → Scope
      → (TimeFilter → ℕ → List W)
      → TimeFilter
      → ℕ
      → Cache
      → LeaderboardResult E × Cache
      → Type 0
  Answered now scope query filter limit c (answer, c') =
      let key = cache_key scope filter in
      let own = fresh to_rank now filter (query filter limit) in
      let stored = redis.set_ex key (json.stringify own) (cache_ttl filter) c in
      ((text : String) × (redis.get key c ≡ some (some text))
        × (str_eq text "" ≡ false)
        × (json.parse text ≡ some answer.result)
        × (answer.cache_status ≡ hit)
        × (c' ≡ c))
      ⊎ ((answer ≡ record { result = own; cache_status = miss })
          × ((redis.get key c ≡ some none) ⊎ (redis.get key c ≡ some (some "")))
          × ((stored ≡ some c') ⊎ ((stored ≡ none) × (c' ≡ c))))
      ⊎ ((answer ≡ record { result = own; cache_status = bypass })
          × ((redis.get key c ≡ none)
              ⊎ ((text : String) × (redis.get key c ≡ some (some text))
                  × (str_eq text "" ≡ false)
                  × (json.parse text ≡ none)))
          × (c' ≡ c))

  miss_stores :
      (now : ℕ) (scope : Scope) (query : TimeFilter → ℕ → List W) (filter : TimeFilter) (limit : ℕ)
      (c : Cache) {c₁ : Cache}
      → redis.get (cache_key scope filter) c ≡ some none
      → redis.set_ex
          (cache_key scope filter)
          (json.stringify (fresh to_rank now filter (query filter limit)))
          (cache_ttl filter)
          c
        ≡ some c₁
      → get_leaderboard to_rank redis json now scope query filter limit c ≡ (
        record { result = fresh to_rank now filter (query filter limit); cache_status = miss },
        c₁,
      )
  unfolding get_leaderboard query_and_store
  miss_stores now scope query filter limit c got stored = ground arith

  hit_returns :
      (now : ℕ) (scope : Scope) (query : TimeFilter → ℕ → List W) (filter : TimeFilter) (limit : ℕ)
      (c : Cache) (text : String) (cached : CachedResult E)
      → redis.get (cache_key scope filter) c ≡ some (some text)
      → str_eq text "" ≡ false
      → json.parse text ≡ some cached
      → get_leaderboard to_rank redis json now scope query filter limit c
        ≡ (record { result = cached; cache_status = hit }, c)
  unfolding get_leaderboard
  hit_returns now scope query filter limit c text cached got nonempty parsed =
      rw (got, get_leaderboard) (rw nonempty (rw parsed))

  -- A call always answers, whatever Redis and the parser do. It answers HIT with what parses from
  -- the text that Redis gave, which is not empty, and leaves the cache alone; or it answers with
  -- its own query's rows at its own limit: MISS where Redis gave no text or an empty one, and then
  -- what it stored, if Redis stored it, is the whole change of the cache; or BYPASS, only where
  -- Redis failed or its text, not empty, did not parse, and then the cache is as it was.
  pub always_answers :
      (now : ℕ) (scope : Scope) (query : TimeFilter → ℕ → List W) (filter : TimeFilter) (limit : ℕ)
      (c : Cache)
      → Answered now scope query filter limit c
          (get_leaderboard to_rank redis json now scope query filter limit c)
  unfolding get_leaderboard query_and_store
  always_answers now scope query filter limit c =
      let text = json.stringify (fresh to_rank now filter (query filter limit)) in
      let stored = redis.set_ex (cache_key scope filter) text (cache_ttl filter) c in
      elim (Option-cases (redis.get (cache_key scope filter) c)) [
        | inl down ↦ inr (inr (ground arith, inl down, ground arith))
        | inr (none, absent) ↦ elim (Option-cases stored) [
          | inl failed ↦ inr (inl (ground arith))
          | inr (c', done) ↦ inr (inl (ground arith))
        ]
        | inr (some t, found) ↦ elim (Bool-cases (str_eq t "")) [
          | inl empty ↦
              let absent : redis.get (cache_key scope filter) c ≡ some (some "") =
                rw (← ((eq_iff t "").0 empty)) found in
              elim (Option-cases stored) [
                | inl failed ↦ inr (inl (ground arith))
                | inr (c', done) ↦ inr (inl (ground arith))
              ]
          | inr some_text ↦ elim (Option-cases (json.parse t)) [
            | inl bad ↦ inr (inr (ground arith, inr (t, found, some_text, bad), ground arith))
            | inr (x, parsed) ↦
                rw (hit_returns now scope query filter limit c t x found some_text parsed)
                  (inl (t, found, some_text, parsed, refl, refl))
          ]
        ]
      ]

module _ {redis : Redis} (laws : RedisLaws redis) {W E : Type 0} (to_rank : ℕ → W → E)
    (json : Json (CachedResult E)) where
  -- If the cache holds nothing under the key, the commands succeed, and the cached text is not
  -- empty and parses to what it was made of, a call answers with its
  -- query's rows and MISS; a second call, while the entry has not expired, answers HIT with the
  -- same rows, whatever limit it asks for and whatever the query would give by then.
  pub hit_after_miss :
      (now now' : ℕ) (scope : Scope) (query query' : TimeFilter → ℕ → List W) (filter : TimeFilter)
      (limit limit' : ℕ) (c : Cache) {c₁ : Cache} {v : Option String}
      → json.parse (json.stringify (fresh to_rank now filter (query filter limit)))
        ≡ some (fresh to_rank now filter (query filter limit))
      → str_eq (json.stringify (fresh to_rank now filter (query filter limit))) "" ≡ false
      → redis.get (cache_key scope filter) c ≡ some none
      → redis.set_ex
          (cache_key scope filter)
          (json.stringify (fresh to_rank now filter (query filter limit)))
          (cache_ttl filter)
          c
        ≡ some c₁
      → redis.get (cache_key scope filter) c₁ ≡ some v
      → let first = get_leaderboard to_rank redis json now scope query filter limit c in
        let second = get_leaderboard to_rank redis json now' scope query' filter limit' first.1 in
        (first.0
          ≡ record { result = fresh to_rank now filter (query filter limit); cache_status = miss })
        × (second.0
            ≡ record { result = fresh to_rank now filter (query filter limit); cache_status = hit })
        × (second.1 ≡ first.1)
  hit_after_miss now now' scope query query' filter limit limit' c {c₁} {v} round nonempty got
        stored got' =
      let cached = fresh to_rank now filter (query filter limit) in
      let held =
        laws.set_ex (cache_key scope filter) (json.stringify cached) (cache_ttl filter) c c₁ stored
          (cache_key scope filter) in
      let found : v ≡ some (json.stringify cached) =
        laws.get (cache_key scope filter) c₁ v got'
        ∙ rw (eq_refl (cache_key scope filter)) at held in
      let first = miss_stores redis to_rank json now scope query filter limit c got stored in
      let second =
        hit_returns redis to_rank json now' scope query' filter limit' c₁ (json.stringify cached)
          cached (rw found at got') nonempty round in
      rw first (
        refl,
        ap (λ (x : LeaderboardResult E × Cache). x.0) second,
        ap (λ (x : LeaderboardResult E × Cache). x.1) second,
      )

-- one of the eight keys of the leaderboards is among those that are deleted for both scopes
own_key :
    (scope : Scope) (filter : TimeFilter)
    → contains (cache_key scope filter) (cache_keys (users ∷ pairs ∷ [])) ≡ true
own_key users week = refl
own_key users month = refl
own_key users year = refl
own_key users total = refl
own_key pairs week = refl
own_key pairs month = refl
own_key pairs year = refl
own_key pairs total = refl

-- After an invalidation of both scopes whose deletion succeeds, no leaderboard is cached, and
-- every key that is not a leaderboard's holds what it held; after one that fails, so does every
-- key.
invalidate_clears :
    {redis : Redis} (laws : RedisLaws redis) (c : Cache) (scope : Scope) (filter : TimeFilter)
    (j : String)
    → let c' = invalidate_cache redis none c in
      let deleted = redis.del (cache_keys (users ∷ pairs ∷ [])) c in
      (deleted ≢ none → c'.lookup (cache_key scope filter) ≡ none)
      × (contains j (cache_keys (users ∷ pairs ∷ [])) ≡ false → c'.lookup j ≡ c.lookup j)
      × (deleted ≡ none → c' ≡ c)
unfolding invalidate_cache
invalidate_clears {redis} laws c scope filter j =
    elim (Option-cases (redis.del (cache_keys (users ∷ pairs ∷ [])) c)) [
      | inl failed ↦ (λ n. absurd (n failed), λ _. ground arith, λ _. ground arith)
      | inr (c₁, deleted) ↦ (
        λ _.
            rw (deleted, invalidate_cache)
              (rw (own_key scope filter) at (laws.del _ c c₁ deleted (cache_key scope filter))),
        λ other. rw (deleted, invalidate_cache) (rw other at (laws.del _ c c₁ deleted j)),
        λ n. cc,
      )
    ]
