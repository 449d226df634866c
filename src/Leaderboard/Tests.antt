-- ===== src/Leaderboard/Tests.antt =====
-- The theorems on the leaderboards at concrete calls.
use text.Mathlib.Text.{◌==◌ as str_eq}
use foosball_api.Prelude.{ℕ, ◌≡◌, refl, none, some, List, [], ◌∷◌, if◌then◌else◌}
use foosball_api.Events.{TimeFilter, week}
use foosball_api.Redis.Memory.{memory, memory_laws}
use foosball_api.Redis.{Cache}
use foosball_api.Leaderboard.{
  users, hit, miss, Json, CachedResult, UserWinEntry, UserRank, user_rank, fresh, ranked_from,
  get_leaderboard, cache_key,
}
use foosball_api.Leaderboard.Caching.{hit_after_miss, Answered, always_answers}

abbrev wins : List UserWinEntry
wins =
    record { user_id = 3; display_name = "Ada"; wins = 9 }
    ∷ record { user_id = 1; display_name = "Bob"; wins = 4 }
    ∷ []

-- the text of the one result that the tests cache
abbrev json : Json (CachedResult UserRank)
json = record {
  stringify = λ _. "{}";
  parse = λ text. if str_eq text "{}" then some (fresh user_rank 100 week wins) else none;
}

abbrev cold : Cache
cold = record { lookup = λ _. none }

abbrev query : TimeFilter → ℕ → List UserWinEntry
query filter limit = wins

abbrev warm : Cache
warm = record { lookup = λ j. if str_eq (cache_key users week) j then some "{}" else cold.lookup j }

hit_after_miss_example :
    let first = get_leaderboard user_rank memory json 100 users query week 10 cold in
    let second = get_leaderboard user_rank memory json 200 users (λ _ _. []) week 1 first.1 in
    (first.0 ≡ record { result = fresh user_rank 100 week wins; cache_status = miss })
    × (second.0 ≡ record { result = fresh user_rank 100 week wins; cache_status = hit })
    × (second.1 ≡ first.1)
unfolding ranked_from
hit_after_miss_example =
    hit_after_miss memory_laws user_rank json 100 200 users query (λ _ _. []) week 10 1 cold
      {c₁ = warm} {v = some "{}"} refl refl refl refl refl

always_answers_example :
    Answered memory user_rank json 100 users query week 10 cold
      (get_leaderboard user_rank memory json 100 users query week 10 cold)
always_answers_example = always_answers memory user_rank json 100 users query week 10 cold
