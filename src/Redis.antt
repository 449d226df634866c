-- ===== src/Redis.antt =====
-- What the program uses of Redis, which is not in the repository: the values that its keys hold
-- at a moment, and the commands as parameters that may fail, with their documented effect as
-- hypotheses. Expiry is a change of the values between two commands.
pub mod Memory
use text.Mathlib.Text.{◌==◌ as str_eq}
use foosball_api.Prelude.{
  ℕ, ◌≡◌, Bool, false, ◌||◌, Option, none, some, String, List, [], ◌∷◌, if◌then◌else◌,
}

pub record Cache : Type 0 where
  pub lookup : String → Option String

pub record Redis : Type 0 where
  -- `none` is a rejected promise
  pub get : String → Cache → Option (Option String)
  -- key, value, seconds to live
  pub set_ex : String → String → ℕ → Cache → Option Cache
  pub del : List String → Cache → Option Cache

abbrev pub contains : String → List String → Bool
contains k [] = false
contains k (x ∷ xs) = str_eq x k || contains k xs

pub record RedisLaws (r : Redis) : Type 0 where
  pub get : (k : String) (c : Cache) (v : Option String) → r.get k c ≡ some v → v ≡ c.lookup k
  pub set_ex :
      (k v : String) (ttl : ℕ) (c c' : Cache)
      → r.set_ex k v ttl c ≡ some c'
      → (j : String) → c'.lookup j ≡ (if str_eq k j then some v else c.lookup j)
  pub del :
      (ks : List String) (c c' : Cache)
      → r.del ks c ≡ some c'
      → (j : String) → c'.lookup j ≡ (if contains j ks then none else c.lookup j)
