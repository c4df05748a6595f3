-- ===== src/Beacon/Read.antt =====
-- What a preflight reads of the beacon node (scripts/lib/common.ts): `fetchBeaconJson`,
-- `assertBeaconNodeHealthy`, `readBeaconValidatorPreflight` and the checks that every preflight
-- makes. Where several requests are awaited together, the first of the source's order that fails
-- is the one reported.
use validator_funding_pool.Decimal.{Text, is_empty}
use validator_funding_pool.Text.{same_hex}
use validator_funding_pool.Value.{Value, Fields, obj, field_of, property}
use validator_funding_pool.Env.{Env, env_text}
use validator_funding_pool.Beacon.Shape.{
  BeaconValidator, BeaconSyncing, assert_beacon_validator_response_shape,
  assert_beacon_syncing_response_shape, require_beacon_data_envelope,
}
use validator_funding_pool.Failure.{
  Result, ok, err, ◌>>=◌, ◌>>◌, guard, refuse_if, beacon_url_missing, request_unfinished,
  request_refused, reply_unparsed, node_syncing, node_optimistic, el_offline, credentials_differ,
}

-- How a request ends: no response (an address that cannot be parsed among them), a status that is
-- no success, a body that is not JSON, or a value.
pub data Reply : Type 0 where
  unfinished refused unparsed : Reply
  json : Value → Reply

-- `fetchBeaconJson`
unfoldable pub fetch_beacon_json : Reply → Result Value
fetch_beacon_json unfinished = err request_unfinished
fetch_beacon_json refused = err request_refused
fetch_beacon_json unparsed = err reply_unparsed
fetch_beacon_json (json v) = ok v

-- The replies to the four requests of one preflight.
pub record PreflightReplies : Type 0 where
  pub syncing : Reply
  pub genesis : Reply
  pub finality : Reply
  pub validator : Reply

-- `BeaconValidatorPreflight`
pub record Preflight : Type 0 where
  pub genesis : Fields
  pub syncing : BeaconSyncing
  pub finality : Fields
  pub validator : BeaconValidator

unfoldable pub require_beacon_node_url : Env → Result (Unit {0})
unfolding env_text
require_beacon_node_url env =
    refuse_if (is_empty (env_text env "BEACON_NODE_URL")) beacon_url_missing

unfoldable pub assert_beacon_node_healthy : Reply → Result BeaconSyncing
assert_beacon_node_healthy reply = do
  response ← fetch_beacon_json reply
  given ← property "data" response
  syncing ← assert_beacon_syncing_response_shape given
  refuse_if syncing.is_syncing node_syncing
  refuse_if syncing.is_optimistic node_optimistic
  refuse_if syncing.el_offline el_offline
  ok syncing

unfoldable pub read_beacon_validator_preflight : PreflightReplies → Text → Result Preflight
read_beacon_validator_preflight replies pubkey = do
  syncing ← assert_beacon_node_healthy replies.syncing
  genesis_reply ← fetch_beacon_json replies.genesis
  finality_reply ← fetch_beacon_json replies.finality
  validator_reply ← fetch_beacon_json replies.validator
  genesis ← require_beacon_data_envelope genesis_reply
  finality ← require_beacon_data_envelope finality_reply
  given ← require_beacon_data_envelope validator_reply
  validator ← assert_beacon_validator_response_shape (obj given) pubkey
  ok (record { genesis = genesis; syncing = syncing; finality = finality; validator = validator })

-- `assertBeaconValidatorWithdrawalCredentials`
unfoldable pub assert_withdrawal_credentials : Preflight → Text → Result (Unit {0})
assert_withdrawal_credentials preflight expected =
    guard (same_hex preflight.validator.withdrawal_credentials expected) credentials_differ

-- `printBeaconPreflight` prints the epoch and the root of the finalized checkpoint, and throws if
-- there is none.
unfoldable pub print_beacon_preflight : Preflight → Result (Unit {0})
print_beacon_preflight preflight = do
  property "epoch" (field_of "finalized" preflight.finality)
  property "root" (field_of "finalized" preflight.finality)
  ok tt
