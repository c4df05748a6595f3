-- ===== src/Env.antt =====
-- The environment and the parsers of what an operator types (scripts/lib/common.ts, from `asHex` to
-- `parseBigIntList`).
pub mod Laws
mod Examples
use validator_funding_pool.Base.{
  ℕ, ◌-◌, ◌^◌, ◌*◌, Bool, true, false, ◌&&◌, ◌||◌, not, String, List, [], ◌∷◌, ◌++◌, Option, none,
  some, ltb, ◌==◌, if◌then◌else◌, length, all,
}
use validator_funding_pool.Decimal.{Text, is_canonical_decimal, big_int, is_empty}
use validator_funding_pool.Text.{codes, same_hex, trim, split_comma, is_hex_digit}
use validator_funding_pool.Value.{Value, nat, str}
use validator_funding_pool.Failure.{
  Failure, Result, ok, err, ◌>>=◌, ◌>>◌, guard, refuse_if, map_ok, invalid_address, missing_env,
  not_canonical_decimal, not_deposit_amount, exceeds_uint64, not_hex, wrong_hex_length,
  expected_pool_malformed, expected_pool_differs,
}

-- `process.env`
abbrev pub Env : Type 0
Env = String → Option Text

-- viem's `isAddress`: whether the check of the letters' case (EIP-55) is made, and the text.
abbrev pub AddressTest : Type 0
AddressTest = Bool → Text → Bool

-- `2n ** 64n - 1n`
abbrev pub uint64_max : ℕ
uint64_max = 2 ^ 64 - 1

-- `Number.MAX_SAFE_INTEGER`
abbrev pub max_safe_integer : ℕ
max_safe_integer = 2 ^ 53 - 1

-- `process.env[name] ?? ""`
unfoldable pub env_text : Env → String → Text
env_text env name = elim (env name) [ none ↦ [] | some t ↦ t ]

-- `asHex`: a prefix `0x`, in either case, is written `0x`, and a missing one is put in front.
unfoldable pub as_hex : Text → Text
as_hex (a ∷ b ∷ t) =
    if a == b'0' && (b == b'x' || b == b'X') then b'0' ∷ b'x' ∷ t else b'0' ∷ b'x' ∷ a ∷ b ∷ t
as_hex t = b'0' ∷ b'x' ∷ t

-- `normalizeHexLength`. The text after the prefix has two digits for each byte.
unfoldable pub normalize_hex_length : Text → ℕ → Result Text
unfolding as_hex
normalize_hex_length value bytes = elim (as_hex value) [
  | a ∷ b ∷ digits ↦ do
    guard (a == b'0' && b == b'x' && all is_hex_digit digits) not_hex
    guard (length digits == bytes * 2) wrong_hex_length
    ok (a ∷ b ∷ digits)
  | _ ↦ err not_hex
]

unfoldable pub parse_unsigned_decimal : Text → Result ℕ
parse_unsigned_decimal t =
    if is_canonical_decimal t then ok (big_int t) else err not_canonical_decimal

-- A JSON number must be a safe integer, a text canonical and within 64 bits.
unfoldable pub parse_deposit_amount_gwei : Value → Result ℕ
parse_deposit_amount_gwei (nat n) = if ltb max_safe_integer n then err not_deposit_amount else ok n
parse_deposit_amount_gwei (str t) = do
  guard (is_canonical_decimal t) not_deposit_amount
  refuse_if (ltb uint64_max (big_int t)) exceeds_uint64
  ok (big_int t)
parse_deposit_amount_gwei _ = err not_deposit_amount

module _ (env : Env) where
  -- `envBigInt(name)` and `envBigInt(name, fallback)`
  unfoldable pub env_big_int : String → Option ℕ → Result ℕ
  unfolding env_text parse_unsigned_decimal
  env_big_int name fallback =
      if is_empty (env_text env name)
      then elim fallback [ none ↦ err missing_env | some n ↦ ok n ]
      else parse_unsigned_decimal (env_text env name)

  unfoldable pub optional_env_big_int : String → Result (Option ℕ)
  unfolding env_big_int
  optional_env_big_int name =
      if is_empty (env_text env name) then ok none else (env_big_int name none >>= λ n. ok (some n))

module _ (is_address : AddressTest) where
  unfoldable pub as_address : Text → Result Text
  as_address t = if is_address true t then ok t else err invalid_address

  unfoldable pub env_address : Env → String → Option Text → Result Text
  unfolding env_text as_address
  env_address env name fallback =
      if is_empty (env_text env name)
      then elim fallback [ none ↦ err missing_env | some a ↦ ok a ]
      else as_address (env_text env name)

  unfoldable pub parse_address_list : Text → Result (List Text)
  unfolding as_address
  parse_address_list value = map_ok (λ entry. as_address (trim entry)) (split_comma value)

  -- `EXPECTED_POOL`, if it is declared.
  unfoldable pub declared_expected_pool : Env → Result (Option Text)
  unfolding env_text
  declared_expected_pool env =
      let declared = env_text env "EXPECTED_POOL" in
      if is_empty declared
      then ok none
      else if is_address false declared
      then ok (some declared)
      else err expected_pool_malformed

  unfoldable pub assert_expected_pool : Env → Text → Result (Unit {0})
  unfolding declared_expected_pool
  assert_expected_pool env pool = declared_expected_pool env >>= λ expected. elim expected [
    | none ↦ ok tt
    | some p ↦ guard (same_hex pool p) expected_pool_differs
  ]

unfoldable pub parse_big_int_list : Text → Result (List ℕ)
unfolding parse_unsigned_decimal
parse_big_int_list value = map_ok (λ entry. parse_unsigned_decimal (trim entry)) (split_comma value)
