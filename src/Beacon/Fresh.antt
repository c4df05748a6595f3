-- ===== src/Beacon/Fresh.antt =====
-- The preflight of `fund` and `top-up` (scripts/lib/common.ts): the validator has the pool's
-- credentials and nothing but the predeposit, or an excess that the operator confirms.
pub mod Laws
use validator_funding_pool.Base.{ℕ, ◌^◌, ◌-◌, Bool, true, false, not, ltb, leb, ◌==◌, if◌then◌else◌}
use validator_funding_pool.Decimal.{Text, decimal}
use validator_funding_pool.Text.{same_text, trim}
use validator_funding_pool.Value.{bool, str}
use validator_funding_pool.Env.{Env, uint64_max}
use validator_funding_pool.Beacon.Shape.{
  BeaconValidator, parse_beacon_uint64, require_beacon_boolean,
}
use validator_funding_pool.Beacon.Read.{
  PreflightReplies, Preflight, require_beacon_node_url, read_beacon_validator_preflight,
  assert_withdrawal_credentials, print_beacon_preflight,
}
use validator_funding_pool.Failure.{
  Result, ok, err, ◌>>=◌, ◌>>◌, guard, refuse_if, below_predeposit, slashed, epoch_set,
  balance_changed, confirmation_without_tty, confirmation_differs,
}

abbrev pub predeposit_gwei : ℕ
predeposit_gwei = 1_000_000_000

-- `UINT64_MAX.toString()`
unfoldable pub far_future_epoch : Text
far_future_epoch = decimal uint64_max

-- One round over `BEACON_EPOCH_FIELDS`.
unfoldable pub assert_far_future : Text → Result (Unit {0})
unfolding far_future_epoch
assert_far_future epoch = do
  parse_beacon_uint64 (str epoch)
  guard (same_text epoch far_future_epoch) epoch_set

unfoldable pub assert_fresh_predeposit_mutable_state : BeaconValidator → Result ℕ
unfolding require_beacon_boolean
assert_fresh_predeposit_mutable_state v = do
  balance ← parse_beacon_uint64 (str v.balance)
  refuse_if (ltb balance predeposit_gwei) below_predeposit
  is_slashed ← require_beacon_boolean (bool v.slashed)
  refuse_if is_slashed slashed
  assert_far_future v.activation_eligibility_epoch
  assert_far_future v.activation_epoch
  assert_far_future v.exit_epoch
  assert_far_future v.withdrawable_epoch
  ok balance

-- `ExcessBalanceConfirmationReader`: whether there is a terminal, and the line that it answers.
pub record ConfirmationReader : Type 0 where
  pub is_tty : Bool
  pub answer : Text

unfoldable pub confirm_excess_balance : ℕ → ConfirmationReader → Result (Unit {0})
confirm_excess_balance balance reader = do
  guard reader.is_tty confirmation_without_tty
  guard (same_text (trim reader.answer) (decimal balance)) confirmation_differs

module _ (pubkey expected_credentials : Text) where
  -- `assertBeaconValidatorHasWithdrawalCredentialsAtUrl`
  unfoldable pub has_withdrawal_credentials_at_url : PreflightReplies → Result Preflight
  has_withdrawal_credentials_at_url replies = do
    preflight ← read_beacon_validator_preflight replies pubkey
    assert_withdrawal_credentials preflight expected_credentials
    print_beacon_preflight preflight
    ok preflight

  unfoldable pub assert_fresh_predeposit_head_state : PreflightReplies → Bool → Result ℕ
  assert_fresh_predeposit_head_state replies compact = do
    preflight ← read_beacon_validator_preflight replies pubkey
    assert_withdrawal_credentials preflight expected_credentials
    balance ← assert_fresh_predeposit_mutable_state preflight.validator
    elim compact [ true ↦ ok tt | false ↦ print_beacon_preflight preflight ]
    ok balance

  -- The end of `assertBeaconValidatorIsFreshPredeposit`: a balance up to the predeposit is returned,
  -- another is confirmed and read again.
  unfoldable pub settle_balance : PreflightReplies → ConfirmationReader → ℕ → Bool → Result ℕ
  settle_balance re_read reader balance true = ok balance
  settle_balance re_read reader balance false = do
    confirm_excess_balance balance reader
    again ← assert_fresh_predeposit_head_state re_read false
    guard (again == balance) balance_changed
    ok balance

  -- `assertBeaconValidatorIsFreshPredeposit`, on the replies at the finalized state, at the head, and
  -- at the head once more after the confirmation.
  unfoldable pub assert_is_fresh_predeposit :
      Env → (finalized head re_read : PreflightReplies) → ConfirmationReader → Result ℕ
  assert_is_fresh_predeposit env finalized head re_read reader = do
    require_beacon_node_url env
    has_withdrawal_credentials_at_url finalized
    balance ← assert_fresh_predeposit_head_state head false
    settle_balance re_read reader balance (leb balance predeposit_gwei)

  -- `assertBeaconValidatorReadyForFunding`
  unfoldable pub assert_ready_for_funding :
      Env → (finalized head re_read : PreflightReplies) → ConfirmationReader → Result ℕ
  unfolding assert_is_fresh_predeposit
  assert_ready_for_funding = assert_is_fresh_predeposit

  -- `assertBeaconValidatorReadyForTopUp`
  unfoldable pub assert_ready_for_top_up :
      Env → (finalized head re_read : PreflightReplies) → ConfirmationReader → Result ℕ
  unfolding assert_is_fresh_predeposit
  assert_ready_for_top_up = assert_is_fresh_predeposit

  -- `assertBeaconValidatorStillFresh`
  unfoldable pub assert_still_fresh : Env → PreflightReplies → ℕ → Result (Unit {0})
  assert_still_fresh env replies expected_balance = do
    require_beacon_node_url env
    balance ← assert_fresh_predeposit_head_state replies true
    guard (balance == expected_balance) balance_changed
