-- ===== src/Pool/Map.antt =====
-- The mappings from addresses to amounts (contracts/ValidatorFundingPool.sol), and sums over the
-- participants. An address is a number; an absent key has 0.
use validator_funding_pool.Base.{
  ℕ, ◌+◌, ◌*◌, ◌≤◌, ◌≡◌, refl, Bool, true, false, ◌||◌, List, [], ◌∷◌, ◌++◌, arith, ◌==◌, ==_iff,
  if◌then◌else◌, inl, inr, Bool-cases,
}

abbrev pub Balances : Type 0
Balances = List (ℕ × ℕ)

unfoldable pub get : Balances → ℕ → ℕ
get [] a = 0
get ((b, v) ∷ m) a = if b == a then v else get m a

unfoldable pub set : Balances → ℕ → ℕ → Balances
set [] a v = (a, v) ∷ []
set ((b, w) ∷ m) a v = if b == a then (b, v) ∷ m else (b, w) ∷ set m a v

-- The sum of all the amounts.
abbrev pub total : Balances → ℕ
total [] = 0
total ((b, v) ∷ m) = v + total m

abbrev pub mem : ℕ → List ℕ → Bool
mem a [] = false
mem a (x ∷ xs) = a == x || mem a xs

abbrev pub IsDistinct : List ℕ → Type 0
IsDistinct [] = Unit {0}
IsDistinct (x ∷ xs) = (mem x xs ≡ false) × IsDistinct xs

abbrev pub sum : (ℕ → ℕ) → List ℕ → ℕ
sum f [] = 0
sum f (x ∷ xs) = f x + sum f xs

pub get-set_self : (m : Balances) (a v : ℕ) → get (set m a v) a ≡ v
unfolding get set
get-set_self [] a v = ground arith
get-set_self ((b, w) ∷ m) a v = ground (arith, get-set_self m a v)

pub get-set_other : (m : Balances) (a v b : ℕ) → (a == b) ≡ false → get (set m a v) b ≡ get m b
unfolding get set
get-set_other [] a v b h = ground arith
get-set_other ((c, w) ∷ m) a v b h = ground (arith, get-set_other m a v b h)

pub total-set : (m : Balances) (a v : ℕ) → total (set m a v) + get m a ≡ total m + v
unfolding get set
total-set [] a v = ground arith
total-set ((b, w) ∷ m) a v = ground (arith, total-set m a v)

pub get-le-total : (m : Balances) (a : ℕ) → get m a ≤ total m
unfolding get
get-le-total [] a = ground arith
get-le-total ((b, w) ∷ m) a = ground (arith, get-le-total m a)

pub mem-append : (a b : ℕ) (xs : List ℕ) → mem a (xs ++ (b ∷ [])) ≡ (mem a xs || (a == b))
mem-append a b [] = ground arith
mem-append a b (x ∷ xs) = ground (arith, mem-append a b xs)

pub IsDistinct-append :
    (b : ℕ) (xs : List ℕ) → IsDistinct xs → mem b xs ≡ false → IsDistinct (xs ++ (b ∷ []))
IsDistinct-append b [] d h = (refl, tt)
IsDistinct-append b (x ∷ xs) d h =
    (ground (arith, mem-append x b xs), IsDistinct-append b xs d.1 (ground arith))

pub sum-append : (f : ℕ → ℕ) (xs : List ℕ) (b : ℕ) → sum f (xs ++ (b ∷ [])) ≡ sum f xs + f b
sum-append f [] b = omega arith
sum-append f (x ∷ xs) b = omega (arith, sum-append f xs b)

-- Functions that agree on the members have the same sum.
pub sum-eq :
    (f g : ℕ → ℕ) (xs : List ℕ) → ((a : ℕ) → mem a xs ≡ true → f a ≡ g a) → sum f xs ≡ sum g xs
sum-eq f g [] h = refl
sum-eq f g (x ∷ xs) h = omega (arith, h x (ground arith), sum-eq f g xs (λ a m. h a (ground arith)))

pub sum-le :
    (f g : ℕ → ℕ) (xs : List ℕ) → ((a : ℕ) → mem a xs ≡ true → f a ≤ g a) → sum f xs ≤ sum g xs
sum-le f g [] h = omega arith
sum-le f g (x ∷ xs) h = omega (arith, h x (ground arith), sum-le f g xs (λ a m. h a (ground arith)))

pub sum-zero : (f : ℕ → ℕ) (xs : List ℕ) → ((a : ℕ) → mem a xs ≡ true → f a ≡ 0) → sum f xs ≡ 0
sum-zero f [] h = refl
sum-zero f (x ∷ xs) h = omega (arith, h x (ground arith), sum-zero f xs (λ a m. h a (ground arith)))

pub sum-add : (f g : ℕ → ℕ) (xs : List ℕ) → sum (λ a. f a + g a) xs ≡ sum f xs + sum g xs
sum-add f g [] = omega arith
sum-add f g (x ∷ xs) = omega (arith, sum-add f g xs)

pub sum-scale : (k : ℕ) (f : ℕ → ℕ) (xs : List ℕ) → sum (λ a. k * f a) xs ≡ k * sum f xs
sum-scale k f [] = grind arith
sum-scale k f (x ∷ xs) = grind (arith, sum-scale k f xs)

mem-ne : (a x : ℕ) (xs : List ℕ) → mem a xs ≡ false → mem x xs ≡ true → (a == x) ≡ false
mem-ne a x [] h k = cc
mem-ne a x (y ∷ xs) h k = ground (arith, mem-ne a x xs)

-- A new amount for an address that is not listed changes no sum.
pub sum-set_absent :
    (m : Balances) (a v : ℕ) (xs : List ℕ)
    → mem a xs ≡ false
    → sum (get (set m a v)) xs ≡ sum (get m) xs
sum-set_absent m a v xs h =
    sum-eq (get (set m a v)) (get m) xs (λ x k. get-set_other m a v x (mem-ne a x xs h k))

-- For an address that is listed once it replaces the old amount.
pub sum-set :
    (m : Balances) (a v : ℕ) (xs : List ℕ)
    → IsDistinct xs
    → mem a xs ≡ true
    → sum (get (set m a v)) xs + get m a ≡ sum (get m) xs + v
sum-set m a v [] d h = cc
sum-set m a v (x ∷ xs) d h = elim (Bool-cases (a == x)) [
  | inl e ↦
      let same : a ≡ x = (==_iff a x).0 e in
      let apart : mem a xs ≡ false = rw same d.0 in
      let new : get (set m a v) x ≡ v = cc (get-set_self m a v, same) in
      let old : get m a ≡ get m x = cc in omega (arith, sum-set_absent m a v xs apart, new, old)
  | inr e ↦ omega (arith, sum-set m a v xs d.1 (ground arith), get-set_other m a v x e)
]

pub get-le-sum : (f : ℕ → ℕ) (a : ℕ) (xs : List ℕ) → mem a xs ≡ true → f a ≤ sum f xs
get-le-sum f a [] h = cc
get-le-sum f a (x ∷ xs) h = elim (Bool-cases (a == x)) [
  | inl e ↦ let same : a ≡ x = (==_iff a x).0 e in ground arith
  | inr e ↦ omega (arith, get-le-sum f a xs (ground arith))
]
