-- ===== src/Env/Laws.antt =====
-- What the parsers of numbers accept: the canonical numerals, and nothing else.
use validator_funding_pool.Base.{
  ℕ, ◌≤◌, ◌≡◌, refl, ◌↔◌, ◌⊎◌, inl, inr, true, false, String, none, some, arith, Bool-cases, [],
  ◌∷◌,
}
use validator_funding_pool.Decimal.{Text, is_canonical_decimal, decimal, is_empty}
use validator_funding_pool.Decimal.RoundTrip.{
  decimal-big_int, big_int-decimal, decimal-is_canonical,
}
use validator_funding_pool.Value.{Value, nat, str}
use validator_funding_pool.Failure.{ok}
use validator_funding_pool.Env.{
  Env, uint64_max, max_safe_integer, env_text, parse_unsigned_decimal, parse_deposit_amount_gwei,
  optional_env_big_int,
}

-- A text parses to a number exactly when it is the numeral that the number prints as.
pub parse_unsigned_decimal_iff :
    (t : Text) (n : ℕ) → (parse_unsigned_decimal t ≡ ok n) ↔ (t ≡ decimal n)
unfolding parse_unsigned_decimal
parse_unsigned_decimal_iff t n = (sound, complete)
  where
    sound : parse_unsigned_decimal t ≡ ok n → t ≡ decimal n
    sound h = elim (Bool-cases (is_canonical_decimal t)) [
      | inl canonical ↦ cc (decimal-big_int t canonical, rw canonical at h)
      | inr other ↦ cc (rw other at h)
    ]

    complete : t ≡ decimal n → parse_unsigned_decimal t ≡ ok n
    complete e = rw (e, decimal-is_canonical, big_int-decimal)

empty_is_no_numeral : (t : Text) → is_canonical_decimal t ≡ true → is_empty t ≡ false
unfolding is_canonical_decimal
empty_is_no_numeral [] h = cc
empty_is_no_numeral (c ∷ t) h = refl

pub decimal-ne-empty : (n : ℕ) → is_empty (decimal n) ≡ false
decimal-ne-empty n = empty_is_no_numeral (decimal n) (decimal-is_canonical n)

pub is_empty_iff : (t : Text) → (is_empty t ≡ true) ↔ (t ≡ [])
is_empty_iff [] = (λ _. refl, λ _. refl)
is_empty_iff (c ∷ t) = (λ h. cc, λ h. cc)

-- An optional number of the environment is read exactly when the variable holds its numeral.
pub optional_env_big_int-some :
    (env : Env) (name : String) (n : ℕ)
    → (optional_env_big_int env name ≡ ok (some n)) ↔ (env_text env name ≡ decimal n)
unfolding optional_env_big_int
optional_env_big_int-some env name n = (sound, complete)
  where
    sound : optional_env_big_int env name ≡ ok (some n) → env_text env name ≡ decimal n
    sound h = ground (arith, (parse_unsigned_decimal_iff (env_text env name) n).0)

    complete : env_text env name ≡ decimal n → optional_env_big_int env name ≡ ok (some n)
    complete e = rw (e, decimal-ne-empty, (parse_unsigned_decimal_iff (decimal n) n).1 refl)

-- It is read as absent exactly when the variable is unset or empty.
pub optional_env_big_int-none :
    (env : Env) (name : String)
    → (optional_env_big_int env name ≡ ok none) ↔ (env_text env name ≡ [])
unfolding optional_env_big_int
optional_env_big_int-none env name = (sound, complete)
  where
    sound : optional_env_big_int env name ≡ ok none → env_text env name ≡ []
    sound h = ground (arith, (is_empty_iff (env_text env name)).0)

    complete : env_text env name ≡ [] → optional_env_big_int env name ≡ ok none
    complete e = rw e

-- An amount of the deposit-data file is read from a number up to 2^53 - 1 or from a canonical
-- numeral up to 2^64 - 1, and from nothing else.
pub parse_deposit_amount_gwei_iff :
    (v : Value) (n : ℕ)
    → (parse_deposit_amount_gwei v ≡ ok n)
      ↔ (((v ≡ nat n) × (n ≤ max_safe_integer)) ⊎ ((v ≡ str (decimal n)) × (n ≤ uint64_max)))
unfolding parse_deposit_amount_gwei
parse_deposit_amount_gwei_iff v n = (sound v, complete)
  where
    sound :
        (v : Value)
        → parse_deposit_amount_gwei v ≡ ok n
        → ((v ≡ nat n) × (n ≤ max_safe_integer)) ⊎ ((v ≡ str (decimal n)) × (n ≤ uint64_max))
    sound (nat m) h = ground arith
    sound (str t) h = ground (arith, decimal-big_int t)
    sound _ h = cc

    complete :
        (((v ≡ nat n) × (n ≤ max_safe_integer)) ⊎ ((v ≡ str (decimal n)) × (n ≤ uint64_max)))
        → parse_deposit_amount_gwei v ≡ ok n
    complete (inl (e, h)) = rw e (ground arith)
    complete (inr (e, h)) = rw (e, decimal-is_canonical, big_int-decimal) (ground arith)
