-- ===== src/Text/Split.antt =====
-- Lists written with commas: `split_comma` reads back what `join_comma` writes, and `trim` leaves a
-- text without white space alone.
use validator_funding_pool.Base.{
  ℕ, ◌≡◌, refl, true, false, Bool, ◌&&◌, not, List, [], ◌∷◌, ◌++◌, arith, ◌==◌, length, All, all,
  and-true, ==_iff,
}
use validator_funding_pool.Decimal.{Text, decimal, is_digit, is_canonical_decimal, is_empty}
use validator_funding_pool.Decimal.RoundTrip.{decimal-is_canonical}
use validator_funding_pool.Text.{
  is_hex_digit, is_hex_of_length, is_space, trim_start, trim, split_from, split_comma,
}
use mathlib.Core.List.{reverse, reverse-reverse, reverse-cons, append_assoc, append-nil}

-- The entries with a comma between each and the next.
unfoldable pub join_comma : List Text → Text
join_comma [] = []
join_comma (t ∷ []) = t
join_comma (t ∷ u ∷ ts) = t ++ (b',' ∷ join_comma (u ∷ ts))

-- Neither white space nor a comma.
unfoldable pub is_plain_char : ℕ → Bool
is_plain_char c = not (is_space c) && not (c == b',')

abbrev pub is_plain : Text → Bool
is_plain = all is_plain_char

all-append : (p : ℕ → Bool) (s t : Text) → all p s ≡ true → all p t ≡ true → all p (s ++ t) ≡ true
all-append p [] t h k = k
all-append p (c ∷ s) t h k =
    let (first, rest) = and-true (p c) (all p s) h in rw (first, all-append p s t rest k)

all-reverse : (p : ℕ → Bool) (t : Text) → all p t ≡ true → all p (reverse t) ≡ true
all-reverse p [] h = refl
all-reverse p (c ∷ t) h =
    let (first, rest) = and-true (p c) (all p t) h in
    rw reverse-cons (all-append p (reverse t) (c ∷ []) (all-reverse p t rest) (rw first))

trim_start-plain : (t : Text) → is_plain t ≡ true → trim_start t ≡ t
unfolding trim_start is_plain_char
trim_start-plain [] h = refl
trim_start-plain (c ∷ t) h = ground arith

pub trim-plain : (t : Text) → is_plain t ≡ true → trim t ≡ t
unfolding trim
trim-plain t h =
    rw (trim_start-plain t h, trim_start-plain (reverse t) (all-reverse is_plain_char t h))
      (reverse-reverse t)

no_comma : (c : ℕ) → is_plain_char c ≡ true → (c == b',') ≡ false
unfolding is_plain_char
no_comma c h = ground arith

split_from-plain :
    (t front : Text) → is_plain t ≡ true → split_from front t ≡ (reverse front ++ t) ∷ []
unfolding split_from
split_from-plain [] front h = rw append-nil
split_from-plain (c ∷ t) front h =
    let (first, rest) = and-true (is_plain_char c) (is_plain t) h in
    rw (no_comma c first, split_from-plain t (c ∷ front) rest, reverse-cons, append_assoc)

split_from-comma :
    (t front more : Text)
    → is_plain t ≡ true
    → split_from front (t ++ (b',' ∷ more)) ≡ (reverse front ++ t) ∷ split_from [] more
unfolding split_from
split_from-comma [] front more h = rw append-nil
split_from-comma (c ∷ t) front more h =
    let (first, rest) = and-true (is_plain_char c) (is_plain t) h in
    rw (no_comma c first, split_from-comma t (c ∷ front) more rest, reverse-cons, append_assoc)

-- A list of texts without commas is read back as it was written, unless it is empty.
pub split_comma-join_comma :
    (t : Text) (ts : List Text)
    → All (λ u. is_plain u ≡ true) (t ∷ ts)
    → split_comma (join_comma (t ∷ ts)) ≡ t ∷ ts
unfolding split_comma join_comma
split_comma-join_comma t [] h = split_from-plain t [] h.0
split_comma-join_comma t (u ∷ ts) h =
    rw (split_from-comma t [] (join_comma (u ∷ ts)) h.0, split_comma-join_comma u ts h.1)

digit-is_plain : (c : ℕ) → is_digit c ≡ true → is_plain_char c ≡ true
unfolding is_plain_char is_space
digit-is_plain c h = ground arith

digits-is_plain : (t : Text) → all is_digit t ≡ true → is_plain t ≡ true
digits-is_plain [] h = refl
digits-is_plain (c ∷ t) h =
    let (first, rest) = and-true (is_digit c) (all is_digit t) h in
    rw (digit-is_plain c first, digits-is_plain t rest)

canonical_digits : (t : Text) → is_canonical_decimal t ≡ true → all is_digit t ≡ true
unfolding is_canonical_decimal
canonical_digits [] h = cc
canonical_digits (c ∷ []) h = ground arith
canonical_digits (c ∷ d ∷ t) h = ground arith

pub decimal-is_plain : (n : ℕ) → is_plain (decimal n) ≡ true
decimal-is_plain n =
    digits-is_plain (decimal n) (canonical_digits (decimal n) (decimal-is_canonical n))

hex_digit-is_plain : (c : ℕ) → is_hex_digit c ≡ true → is_plain_char c ≡ true
unfolding is_plain_char is_space
hex_digit-is_plain c h = ground arith

hex_digits-is_plain : (t : Text) → all is_hex_digit t ≡ true → is_plain t ≡ true
hex_digits-is_plain [] h = refl
hex_digits-is_plain (c ∷ t) h =
    let (first, rest) = and-true (is_hex_digit c) (all is_hex_digit t) h in
    rw (hex_digit-is_plain c first, hex_digits-is_plain t rest)

-- The parts of the test of a hex text.
hex_parts :
    (n a b : ℕ) (t : Text)
    → is_hex_of_length n (a ∷ b ∷ t) ≡ true
    → (a ≡ b'0') × (b ≡ b'x') × (all is_hex_digit t ≡ true)
unfolding is_hex_of_length
hex_parts n a b t h =
    let (prefix, body) =
      and-true (a == b'0' && b == b'x') (length t == n && all is_hex_digit t) h in
    let (zero_first, x_second) = and-true (a == b'0') (b == b'x') prefix in
    let (_, digits) = and-true (length t == n) (all is_hex_digit t) body in
    ((==_iff a b'0').0 zero_first, (==_iff b b'x').0 x_second, digits)

pub hex-is_plain : (n : ℕ) (t : Text) → is_hex_of_length n t ≡ true → is_plain t ≡ true
hex-is_plain n [] h = unfold is_hex_of_length in cc
hex-is_plain n (a ∷ []) h = unfold is_hex_of_length in cc
hex-is_plain n (a ∷ b ∷ t) h =
    let (zero_first, x_second, digits) = hex_parts n a b t h in
    rw (zero_first, x_second, hex_digits-is_plain t digits) (unfold is_plain_char is_space in refl)

pub join_comma-ne-empty :
    (t : Text) (ts : List Text) → is_empty t ≡ false → is_empty (join_comma (t ∷ ts)) ≡ false
unfolding join_comma
join_comma-ne-empty t [] h = h
join_comma-ne-empty [] (u ∷ ts) h = cc
join_comma-ne-empty (c ∷ t) (u ∷ ts) h = refl

pub hex-ne-empty : (n : ℕ) (t : Text) → is_hex_of_length n t ≡ true → is_empty t ≡ false
unfolding is_hex_of_length
hex-ne-empty n [] h = cc
hex-ne-empty n (a ∷ t) h = refl
