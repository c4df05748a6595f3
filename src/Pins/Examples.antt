-- ===== src/Pins/Examples.antt =====
-- A pool that is about to be funded, with the attempt and the deadline declared.
use text.Mathlib.Text.{◌==◌ as str_eq}
use validator_funding_pool.Base.{refl, true, none, some, if◌then◌else◌}
use validator_funding_pool.Decimal.{is_canonical_decimal, big_int}
use validator_funding_pool.Text.{codes, same_hex}
use validator_funding_pool.Env.{Env, AddressTest, optional_env_big_int, assert_expected_pool}
use validator_funding_pool.Pins.{FundingState, assert_funding_pins, assert_still_fundable}
use validator_funding_pool.Pins.Fundable.{StillOpen, assert_still_fundable_iff}

abbrev declared : Env
declared name =
    if str_eq name "EXPECTED_FUNDING_ATTEMPT"
    then some (codes "3")
    else if str_eq name "EXPECTED_DEADLINE_BEFORE"
    then some (codes "900")
    else if str_eq name "EXPECTED_POOL"
    then some (codes "0xAB")
    else none

abbrev any_address : AddressTest
any_address strict t = true

abbrev found : FundingState
found = record {
  pool = codes "0xab";
  state = 2;
  funding_attempt = 3;
  funding_deadline = 900;
  remaining = 50;
  caller_target_wei = 0;
  operator_target_wei = 0;
  timestamp = 899;
}

assert_still_fundable_iff_example : StillOpen any_address declared found 50 3
unfolding assert_still_fundable assert_funding_pins optional_env_big_int assert_expected_pool
    same_hex is_canonical_decimal big_int
assert_still_fundable_iff_example =
    (assert_still_fundable_iff any_address declared found 50 3).0 refl
