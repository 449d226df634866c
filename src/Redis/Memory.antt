-- ===== src/Redis/Memory.antt =====
-- A Redis in memory, which meets the laws of the interface.
use text.Mathlib.Text.{◌==◌ as str_eq}
use foosball_api.Prelude.{some_eq, sym, ap, none, some, if◌then◌else◌}
use foosball_api.Redis.{Cache, Redis, RedisLaws, contains}

abbrev pub memory : Redis
memory = record {
  get = λ k c. some (c.lookup k);
  set_ex = λ k v ttl c. some (record { lookup = λ j. if str_eq k j then some v else c.lookup j });
  del = λ ks c. some (record { lookup = λ j. if contains j ks then none else c.lookup j });
}

pub memory_laws : RedisLaws memory
memory_laws = record {
  get = λ k c v e. some_eq (sym e);
  set_ex = λ k v ttl c c' e j. ap (λ (x : Cache). x.lookup j) (sym (some_eq e));
  del = λ ks c c' e j. ap (λ (x : Cache). x.lookup j) (sym (some_eq e));
}
