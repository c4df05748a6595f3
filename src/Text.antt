-- ===== src/Text.antt =====
-- The string operations that scripts/lib/common.ts uses, on lists of character codes: `toLowerCase`
-- (of the ASCII letters, which is all that hex text and addresses hold), `trim`, `split(",")`, and
-- the tests for hex text.
pub mod Laws
pub mod Split
use Prim.Native.Char.{code}
use validator_funding_pool.Base.{
  ℕ, ◌+◌, ◌-◌, ◌*◌, Bool, true, false, ◌&&◌, ◌||◌, String, List, [], ◌∷◌, ◌++◌, map, leb, ◌==◌,
  if◌then◌else◌, all, length,
}
use validator_funding_pool.Decimal.{Text, is_digit}
use mathlib.Core.List.{reverse}

-- A literal of the source as such a list.
abbrev pub codes : String → Text
codes String.[] = []
codes (String.◌∷◌ c s) = code c ∷ codes s

-- `left === right`
unfoldable pub same_text : Text → Text → Bool
same_text [] [] = true
same_text (c ∷ s) (d ∷ t) = c == d && same_text s t
same_text _ _ = false

unfoldable pub lower : ℕ → ℕ
lower c = if leb b'A' c && leb c b'Z' then c + 32 else c

-- `toLowerCase`
unfoldable pub to_lower_case : Text → Text
unfolding lower
to_lower_case = map lower

-- `left.toLowerCase() === right.toLowerCase()`
unfoldable pub same_hex : Text → Text → Bool
unfolding same_text to_lower_case
same_hex s t = same_text (to_lower_case s) (to_lower_case t)

-- The white space and line ends that `trim` takes off.
unfoldable pub is_space : ℕ → Bool
is_space c =
    (leb 9 c && leb c 13)
    || c == 0x20
    || c == 0xa0
    || c == 0x1680
    || (leb 0x2000 c && leb c 0x200a)
    || c == 0x2028
    || c == 0x2029
    || c == 0x202f
    || c == 0x205f
    || c == 0x3000
    || c == 0xfeff

pub trim_start : Text → Text
unfolding is_space
trim_start [] = []
trim_start (c ∷ t) = if is_space c then trim_start t else c ∷ t

-- `trim`
unfoldable pub trim : Text → Text
unfolding trim_start
trim t = reverse (trim_start (reverse (trim_start t)))

-- The pieces before each comma, and the last one; `front` is the piece being read, reversed.
pub split_from : Text → Text → List Text
split_from front [] = reverse front ∷ []
split_from front (c ∷ t) =
    let rest = split_from [] t in
    let longer = split_from (c ∷ front) t in if c == b',' then reverse front ∷ rest else longer

-- `split(",")`
unfoldable pub split_comma : Text → List Text
unfolding split_from
split_comma = split_from []

abbrev pub is_hex_digit : ℕ → Bool
is_hex_digit c = is_digit c || (leb b'a' c && leb c b'f') || (leb b'A' c && leb c b'F')

-- `/^0x[0-9a-fA-F]{n}$/`
unfoldable pub is_hex_of_length : ℕ → Text → Bool
is_hex_of_length n (a ∷ b ∷ t) = (a == b'0' && b == b'x') && (length t == n && all is_hex_digit t)
is_hex_of_length n _ = false
