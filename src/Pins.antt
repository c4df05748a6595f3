-- ===== src/Pins.antt =====
-- The last checks before a participant's funding is signed (scripts/lib/common.ts,
-- `assertFundingPins` and `assertStillFundable`): what the operator declared against what the pool
-- says.
pub mod Laws
pub mod Fundable
mod Examples
use validator_funding_pool.Base.{
  ℕ, ◌*◌, Bool, true, false, not, Option, none, some, ltb, leb, ◌==◌, if◌then◌else◌,
}
use validator_funding_pool.Decimal.{Text}
use validator_funding_pool.Env.{Env, AddressTest, optional_env_big_int, assert_expected_pool}
use validator_funding_pool.Failure.{
  Failure, Result, ok, err, ◌>>=◌, ◌>>◌, guard, refuse_if, attempt_differs, deadline_after,
  caller_target_differs, operator_target_differs, not_funding, attempt_changed, deadline_passed,
  cap_dropped,
}

abbrev pub gwei_wei : ℕ
gwei_wei = 1_000_000_000

-- `STATE_FUNDING`
abbrev pub state_funding : ℕ
state_funding = 2

pub record FundingPinnedValues : Type 0 where
  pub funding_attempt : ℕ
  pub funding_deadline : ℕ
  pub caller_target_wei : ℕ
  pub operator_target_wei : ℕ

-- A check that is made where a value is declared.
abbrev pub where_declared : (ℕ → Bool) → Failure → Option ℕ → Result (Unit {0})
where_declared test e none = ok tt
where_declared test e (some n) = guard (test n) e

unfoldable pub assert_funding_pins : Env → FundingPinnedValues → Result (Unit {0})
assert_funding_pins env pinned = do
  attempt ← optional_env_big_int env "EXPECTED_FUNDING_ATTEMPT"
  where_declared (λ n. n == pinned.funding_attempt) attempt_differs attempt
  deadline ← optional_env_big_int env "EXPECTED_DEADLINE_BEFORE"
  where_declared (λ n. leb pinned.funding_deadline n) deadline_after deadline
  caller ← optional_env_big_int env "EXPECTED_MY_TARGET_GWEI"
  where_declared (λ n. pinned.caller_target_wei == n * gwei_wei) caller_target_differs caller
  operator ← optional_env_big_int env "EXPECTED_OPERATOR_TARGET_GWEI"
  where_declared (λ n. pinned.operator_target_wei == n * gwei_wei) operator_target_differs operator

-- What the final re-read finds: the pool's answers about the caller and the operator, and the
-- timestamp of the latest block.
pub record FundingState : Type 0 where
  pub pool : Text
  pub state : ℕ
  pub funding_attempt : ℕ
  pub funding_deadline : ℕ
  pub remaining : ℕ
  pub caller_target_wei : ℕ
  pub operator_target_wei : ℕ
  pub timestamp : ℕ

abbrev pub pinned_values : FundingState → FundingPinnedValues
pinned_values s = record {
  funding_attempt = s.funding_attempt;
  funding_deadline = s.funding_deadline;
  caller_target_wei = s.caller_target_wei;
  operator_target_wei = s.operator_target_wei;
}

unfoldable pub assert_still_fundable :
    AddressTest → Env → FundingState → (amount reviewed_attempt : ℕ) → Result (Unit {0})
assert_still_fundable is_address env s amount reviewed_attempt = do
  assert_expected_pool is_address env s.pool
  guard (s.state == state_funding) not_funding
  guard (s.funding_attempt == reviewed_attempt) attempt_changed
  refuse_if (leb s.funding_deadline s.timestamp) deadline_passed
  refuse_if (ltb s.remaining amount) cap_dropped
  assert_funding_pins env (pinned_values s)
