-- ===== src/Schema/Texts.antt =====
-- The lengths of texts: characters, which VARCHAR counts,
-- and bytes of UTF-8, which TEXT counts.
use Prim.Native.String.{[], ◌∷◌}
use Prim.Native.Char.{code}
use foosball_api.Prelude.{ℕ, suc, ◌+◌, ◌*◌, ◌≤◌, String, ltb, arith, if◌then◌else◌}

unfoldable pub characters : String → ℕ
characters [] = 0
characters (c ∷ s) = suc (characters s)

-- the bytes of a code point in UTF-8
abbrev pub bytes_of : ℕ → ℕ
bytes_of c = if ltb c 128 then 1 else if ltb c 2048 then 2 else if ltb c 65536 then 3 else 4

unfoldable pub utf8_bytes : String → ℕ
utf8_bytes [] = 0
utf8_bytes (c ∷ s) = bytes_of (code c) + utf8_bytes s

pub utf8-le-characters : (s : String) → utf8_bytes s ≤ 4 * characters s
unfolding utf8_bytes characters
utf8-le-characters [] = omega arith
utf8-le-characters (c ∷ s) = ground (arith, utf8-le-characters s)
