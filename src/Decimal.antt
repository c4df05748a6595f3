-- ===== src/Decimal.antt =====
-- Canonical decimal numerals (scripts/lib/common.ts, `CANONICAL_UNSIGNED_DECIMAL`): the test, the
-- number that `BigInt` reads, and the text that `toString` writes.
pub mod RoundTrip
use validator_funding_pool.Base.{
  ℕ, zero, suc, ◌+◌, ◌-◌, ◌*◌, ◌/◌, ◌%◌, Bool, true, false, ◌&&◌, List, [], ◌∷◌, ◌++◌, leb, ltb,
  ◌==◌, if◌then◌else◌, all, foldl,
}

-- A JavaScript string, as the list of its characters' codes.
abbrev pub Text : Type 0
Text = List ℕ

abbrev pub is_digit : ℕ → Bool
is_digit c = leb b'0' c && leb c b'9'

abbrev pub is_empty : Text → Bool
is_empty [] = true
is_empty (c ∷ t) = false

-- `/^(0|[1-9][0-9]*)$/`
unfoldable pub is_canonical_decimal : Text → Bool
is_canonical_decimal [] = false
is_canonical_decimal (c ∷ t) =
    if c == b'0' then is_empty t else leb b'1' c && leb c b'9' && all is_digit t

abbrev pub push_digit : ℕ → ℕ → ℕ
push_digit n c = n * 10 + (c - b'0')

-- `BigInt(t)` of a string of decimal digits.
unfoldable pub big_int : Text → ℕ
big_int t = foldl push_digit 0 t

-- `n.toString()`, with fuel: each round takes a digit off.
pub decimal_loop : ℕ → ℕ → Text
decimal_loop zero n = []
decimal_loop (suc f) n =
    let front = decimal_loop f (n / 10) in
    if ltb n 10 then (b'0' + n) ∷ [] else front ++ ((b'0' + n % 10) ∷ [])

unfoldable pub decimal : ℕ → Text
unfolding decimal_loop
decimal n = decimal_loop (suc n) n
