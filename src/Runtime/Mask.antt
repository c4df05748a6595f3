-- ===== src/Runtime/Mask.antt =====
-- Filling ranges of a code with zeros (scripts/lib/common.ts, the last loop of `maskImmutableRanges`),
-- and what is left at each place.
use validator_funding_pool.Base.{
  ℕ, zero, suc, ◌+◌, ◌*◌, ◌≤◌, ◌<◌, ◌≡◌, refl, ◌⊎◌, List, [], ◌∷◌, Option, none, some, arith, All,
}
use validator_funding_pool.Decimal.{Text}

-- `n` places from the place `s` on.
pub fill : ℕ → ℕ → Text → Text
fill s n [] = []
fill zero zero t = t
fill zero (suc n) (c ∷ t) = b'0' ∷ fill zero n t
fill (suc s) n (c ∷ t) = c ∷ fill s n t

-- `for (const { start, length } of declared) bytes.fill(0, start, start + length)`
unfoldable pub fill_all : List (ℕ × ℕ) → Text → Text
unfolding fill
fill_all [] t = t
fill_all ((s, n) ∷ rs) t = fill_all rs (fill (2 * s) (2 * n) t)

abbrev pub digit_at : Text → ℕ → Option ℕ
digit_at [] i = none
digit_at (c ∷ t) zero = some c
digit_at (c ∷ t) (suc i) = digit_at t i

-- A place before the range or behind it.
abbrev pub IsOutside : ℕ → ℕ × ℕ → Type 0
IsOutside i (s, n) = (i < 2 * s) ⊎ (2 * s + 2 * n ≤ i)

fill-digit_at :
    (s n : ℕ) (t : Text) (i : ℕ) → (i < s) ⊎ (s + n ≤ i) → digit_at (fill s n t) i ≡ digit_at t i
unfolding fill
fill-digit_at s n [] i h = refl
fill-digit_at zero zero (c ∷ t) i h = refl
fill-digit_at zero (suc n) (c ∷ t) zero h = ground arith
fill-digit_at zero (suc n) (c ∷ t) (suc i) h = fill-digit_at zero n t i (ground arith)
fill-digit_at (suc s) n (c ∷ t) zero h = refl
fill-digit_at (suc s) n (c ∷ t) (suc i) h = fill-digit_at s n t i (ground arith)

-- Outside of all the ranges nothing is changed.
pub fill_all-digit_at :
    (rs : List (ℕ × ℕ)) (t : Text) (i : ℕ)
    → All (IsOutside i) rs
    → digit_at (fill_all rs t) i ≡ digit_at t i
unfolding fill_all
fill_all-digit_at [] t i h = refl
fill_all-digit_at ((s, n) ∷ rs) t i (h, hs) =
    cc (fill_all-digit_at rs (fill (2 * s) (2 * n) t) i hs, fill-digit_at (2 * s) (2 * n) t i h)
