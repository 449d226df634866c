-- ===== src/Config/Numbers.antt =====
-- `parseInt(text, 10)`, which ports and the number of retries are read with, and `split(',')`.
use Prim.Native.String.{[], ◌∷◌}
use Prim.Native.Char.{code}
use text.Mathlib.Text.{◌==◌ as str_eq}
use mathlib.Core.List as Lists
use foosball_api.Prelude.{
  ℕ, ◌+◌, ◌-◌, ◌*◌, ◌≡◌, refl, Bool, true, false, ◌&&◌, Option, none, some, String, List, leb,
  get_or, ◌==◌, if◌then◌else◌,
}
use foosball_api.Users.{trim_start}

-- NaN, or an integer with its sign
pub data Parsed : Type 0 where
  nan : Parsed
  integer : (negative : Bool) → ℕ → Parsed

abbrev is_digit : ℕ → Bool
is_digit c = leb 48 c && leb c 57

-- the longest run of digits at the start, after those that were read
pub digits : Option ℕ → String → Option ℕ
digits read [] = read
digits read (c ∷ s) =
    let rest = digits (some (get_or read 0 * 10 + (code c - 48))) s in
    if is_digit (code c) then rest else read

abbrev signed : Bool → Option ℕ → Parsed
signed negative none = nan
signed negative (some n) = integer negative n

-- the text after the white space
unfoldable pub from_sign : String → Parsed
unfolding digits
from_sign [] = nan
from_sign (c ∷ s) =
    if code c == 45
    then signed true (digits none s)
    else if code c == 43
    then signed false (digits none s)
    else signed false (digits none (c ∷ s))

unfoldable pub parse_int : String → Parsed
unfolding from_sign trim_start
parse_int s = from_sign (trim_start s)

-- the part before the first comma, and the parts after it
split_at : String → String × List String
split_at [] = ("", Lists.[])
split_at (c ∷ s) =
    let (part, parts) = split_at s in
    if code c == 44 then ("", Lists.◌∷◌ part parts) else (c ∷ part, parts)

-- `s.split(',')`
unfoldable pub split : String → List String
unfolding split_at
split s = let (part, parts) = split_at s in Lists.◌∷◌ part parts

-- `parts.filter(Boolean)`
abbrev pub filled : List String → List String
filled Lists.[] = Lists.[]
filled (Lists.◌∷◌ x xs) = let rest = filled xs in if str_eq x "" then rest else Lists.◌∷◌ x rest

parse_port : parse_int " 3001/x" ≡ integer false 3001
unfolding parse_int
parse_port = refl

parse_empty : parse_int "" ≡ nan
unfolding parse_int
parse_empty = refl

split_origins : filled (split "a,,b") ≡ Lists.◌∷◌ "a" (Lists.◌∷◌ "b" Lists.[])
unfolding split
split_origins = refl
