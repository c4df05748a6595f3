-- ===== src/Decimal/RoundTrip.antt =====
-- The canonical numerals are exactly the texts that `decimal` writes, and `big_int` reads them back.
use validator_funding_pool.Base.{
  ℕ, zero, suc, ◌+◌, ◌-◌, ◌/◌, ◌%◌, ◌<◌, ◌≡◌, refl, sym, ap, ◌∙◌, Bool, true, false, ◌&&◌, [], ◌∷◌,
  ◌++◌, arith, leb, ltb, ◌==◌, all, foldl, Bool-cases, and-true, lt→ltb, inl, inr,
}
use validator_funding_pool.Decimal.{
  Text, is_digit, is_canonical_decimal, push_digit, big_int, decimal_loop, decimal,
}
use mathlib.Core.List.{append_assoc, append-nil}

-- Any fuel above the number gives the same text.
decimal_loop_fuel : (f g n : ℕ) → n < f → n < g → decimal_loop f n ≡ decimal_loop g n
unfolding decimal_loop
decimal_loop_fuel zero g n h k = absurd (omega arith)
decimal_loop_fuel (suc f) zero n h k = absurd (omega arith)
decimal_loop_fuel (suc f) (suc g) n h k = elim (Bool-cases (ltb n 10)) [
  | inl small ↦ rw small
  | inr large ↦ rw (large, decimal_loop_fuel f g (n / 10) (ground arith) (ground arith))
]

-- A numeral grows at its end.
decimal-push_digit :
    (n c : ℕ) → 0 < n → is_digit c ≡ true → decimal (push_digit n c) ≡ decimal n ++ (c ∷ [])
unfolding decimal
decimal-push_digit n c pos digit =
    let large : ltb (push_digit n c) 10 ≡ false = ground arith in
    let front : push_digit n c / 10 ≡ n = ground arith in
    let last : b'0' + push_digit n c % 10 ≡ c = ground arith in
    rw
      (large, front, last, decimal_loop_fuel (push_digit n c) (suc n) n (omega arith) (omega arith))

decimal-foldl :
    (t : Text) (n : ℕ)
    → 0 < n
    → all is_digit t ≡ true
    → decimal (foldl push_digit n t) ≡ decimal n ++ t
decimal-foldl [] n pos digits = sym (append-nil (decimal n))
decimal-foldl (c ∷ t) n pos digits =
    let (first, rest) = and-true (is_digit c) (all is_digit t) digits in
    decimal-foldl t (push_digit n c) (omega arith) rest
    ∙ (rw (decimal-push_digit n c pos first) (append_assoc (decimal n) (c ∷ []) t))

decimal-digit : (n : ℕ) → n < 10 → decimal n ≡ (b'0' + n) ∷ []
unfolding decimal
decimal-digit n h = rw (lt→ltb n 10 h)

-- A canonical text is zero or begins with another digit.
abbrev starts_nonzero : Text → Bool
starts_nonzero [] = false
starts_nonzero (c ∷ t) = leb b'1' c && leb c b'9' && all is_digit t

-- Printing what was read gives a canonical text back.
pub decimal-big_int : (t : Text) → is_canonical_decimal t ≡ true → decimal (big_int t) ≡ t
unfolding is_canonical_decimal big_int
decimal-big_int [] h = cc
decimal-big_int (c ∷ []) h = decimal-digit (push_digit 0 c) (ground arith) ∙ (ground arith)
decimal-big_int (c ∷ d ∷ t) h = elim (Bool-cases (c == b'0')) [
  | inl is_zero ↦ ground arith
  | inr nonzero ↦
      let (first, rest) : (push_digit 0 c ≡ c - b'0') × (all is_digit (d ∷ t) ≡ true) =
        ground arith in
      let digit : decimal (push_digit 0 c) ≡ c ∷ [] =
        decimal-digit (push_digit 0 c) (ground arith) ∙ (ground arith) in
      decimal-foldl (d ∷ t) (push_digit 0 c) (ground arith) rest ∙ rw digit
]

foldl-push :
    (xs : Text) (n c : ℕ)
    → foldl push_digit n (xs ++ (c ∷ [])) ≡ push_digit (foldl push_digit n xs) c
foldl-push [] n c = refl
foldl-push (x ∷ xs) n c = foldl-push xs (push_digit n x) c

big_int-decimal_loop : (f n : ℕ) → n < f → big_int (decimal_loop f n) ≡ n
unfolding big_int decimal_loop
big_int-decimal_loop zero n h = absurd (omega arith)
big_int-decimal_loop (suc f) n h = elim (Bool-cases (ltb n 10)) [
  | inl small ↦ rw small (omega arith)
  | inr large ↦ rw (large, foldl-push, big_int-decimal_loop f (n / 10) (ground arith)) (omega arith)
]

-- Reading what was printed gives the number back.
pub big_int-decimal : (n : ℕ) → big_int (decimal n) ≡ n
unfolding decimal
big_int-decimal n = big_int-decimal_loop (suc n) n (omega arith)

all-push :
    (xs : Text) (c : ℕ)
    → all is_digit xs ≡ true
    → is_digit c ≡ true
    → all is_digit (xs ++ (c ∷ [])) ≡ true
all-push [] c h k = rw k
all-push (x ∷ xs) c h k =
    let (first, rest) = and-true (is_digit x) (all is_digit xs) h in
    rw (first, all-push xs c rest k)

starts_nonzero-push :
    (xs : Text) (c : ℕ)
    → starts_nonzero xs ≡ true
    → is_digit c ≡ true
    → starts_nonzero (xs ++ (c ∷ [])) ≡ true
starts_nonzero-push [] c h k = cc
starts_nonzero-push (x ∷ xs) c h k = ground (arith, all-push xs c)

decimal_loop-starts_nonzero : (f n : ℕ) → 0 < n → n < f → starts_nonzero (decimal_loop f n) ≡ true
unfolding decimal_loop
decimal_loop-starts_nonzero zero n pos h = absurd (omega arith)
decimal_loop-starts_nonzero (suc f) n pos h = elim (Bool-cases (ltb n 10)) [
  | inl small ↦ rw small (ground arith)
  | inr large ↦ rw large (
      starts_nonzero-push (decimal_loop f (n / 10)) (b'0' + n % 10)
        (decimal_loop-starts_nonzero f (n / 10) (ground arith) (ground arith)) (ground arith))
]

starts_nonzero-is_canonical : (t : Text) → starts_nonzero t ≡ true → is_canonical_decimal t ≡ true
unfolding is_canonical_decimal
starts_nonzero-is_canonical [] h = cc
starts_nonzero-is_canonical (c ∷ t) h = ground arith

-- What is printed is canonical.
pub decimal-is_canonical : (n : ℕ) → is_canonical_decimal (decimal n) ≡ true
unfolding decimal
decimal-is_canonical zero = unfold is_canonical_decimal decimal_loop in refl
decimal-is_canonical (suc n) =
    starts_nonzero-is_canonical (decimal (suc n))
      (decimal_loop-starts_nonzero (suc (suc n)) (suc n) (omega arith) (omega arith))

-- Two numbers with the same text are the same.
pub decimal_injective : (m n : ℕ) → decimal m ≡ decimal n → m ≡ n
decimal_injective m n e = sym (big_int-decimal m) ∙ ap big_int e ∙ big_int-decimal n
