-- ===== src/Beacon/Exit.antt =====
-- The preflight of `request-exit` (scripts/lib/common.ts, `assertBeaconValidatorReadyForExit`).
pub mod Laws
use validator_funding_pool.Base.{ℕ, ◌+◌, ◌/◌, Bool, true, false, String, ltb, ◌==◌, if◌then◌else◌}
use validator_funding_pool.Decimal.{Text, is_empty}
use validator_funding_pool.Text.{codes, same_text}
use validator_funding_pool.Value.{Value, undefined, null, obj, str, field_of, property}
use validator_funding_pool.Env.{Env, env_text}
use validator_funding_pool.Beacon.Shape.{parse_beacon_uint64}
use validator_funding_pool.Beacon.Read.{
  Reply, PreflightReplies, Preflight, fetch_beacon_json, read_beacon_validator_preflight,
  assert_withdrawal_credentials, print_beacon_preflight,
}
use validator_funding_pool.Beacon.Fresh.{far_future_epoch}
use validator_funding_pool.Failure.{
  Result, ok, err, ◌>>=◌, ◌>>◌, guard, refuse_if, spec_missing, slashed, epoch_set, not_active,
  slots_per_epoch_zero, not_exit_eligible,
}

-- `value?.[key]`
abbrev pub optional_property : String → Value → Value
optional_property key (obj fs) = field_of key fs
optional_property key _ = undefined

-- A number of the node's configuration, which must be there.
abbrev pub spec_value : Value → Result ℕ
spec_value undefined = err spec_missing
spec_value v = parse_beacon_uint64 v

-- `beaconSpecUint`
unfoldable pub beacon_spec_uint : Value → String → Result ℕ
beacon_spec_uint spec key = do
  given ← property "data" spec
  spec_value (optional_property key given)

-- What the exit needs of a validator: a head slot in an epoch late enough after its activation.
unfoldable pub assert_exit_eligible : Preflight → Value → Result (Unit {0})
assert_exit_eligible preflight spec = do
  slots_per_epoch ← beacon_spec_uint spec "SLOTS_PER_EPOCH"
  refuse_if (slots_per_epoch == 0) slots_per_epoch_zero
  shard_committee_period ← beacon_spec_uint spec "SHARD_COMMITTEE_PERIOD"
  head_slot ← parse_beacon_uint64 (str preflight.syncing.head_slot)
  activation_epoch ← parse_beacon_uint64 (str preflight.validator.activation_epoch)
  refuse_if (ltb (head_slot / slots_per_epoch) (activation_epoch + shard_committee_period))
      not_exit_eligible

-- With the address of a beacon node set; `fetch_beacon_json spec` is awaited with the preflight.
unfoldable pub assert_ready_for_exit_at_url :
    (replies : PreflightReplies) (spec : Reply) (pubkey expected_credentials : Text)
    → Result (Unit {0})
assert_ready_for_exit_at_url replies spec pubkey expected_credentials = do
  preflight ← read_beacon_validator_preflight replies pubkey
  given ← fetch_beacon_json spec
  assert_withdrawal_credentials preflight expected_credentials
  refuse_if preflight.validator.slashed slashed
  guard (same_text preflight.validator.exit_epoch far_future_epoch) epoch_set
  guard (same_text preflight.validator.status (codes "active_ongoing")) not_active
  assert_exit_eligible preflight given
  print_beacon_preflight preflight

-- Without one the exit is requested unchecked, with a warning.
unfoldable pub assert_ready_for_exit :
    Env
    → (replies : PreflightReplies) (spec : Reply) (pubkey expected_credentials : Text)
    → Result (Unit {0})
unfolding env_text
assert_ready_for_exit env replies spec pubkey expected_credentials =
    elim (is_empty (env_text env "BEACON_NODE_URL")) [
      | true ↦ ok tt
      | false ↦ assert_ready_for_exit_at_url replies spec pubkey expected_credentials
    ]
