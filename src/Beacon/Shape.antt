-- ===== src/Beacon/Shape.antt =====
-- The checks of the shape of a beacon node's replies (scripts/lib/common.ts, from `parseBeaconUint64` to
-- `assertBeaconSyncingResponseShape`).
pub mod Laws
use validator_funding_pool.Base.{
  ℕ, ◌*◌, Bool, true, false, String, Option, none, some, ltb, if◌then◌else◌,
}
use validator_funding_pool.Decimal.{Text, is_canonical_decimal, big_int}
use validator_funding_pool.Text.{same_hex, is_hex_of_length}
use validator_funding_pool.Value.{
  Value, Fields, bool, str, obj, field_of, has_field, as_beacon_object,
}
use validator_funding_pool.Env.{uint64_max}
use validator_funding_pool.Failure.{
  Result, ok, err, ◌>>=◌, ◌>>◌, guard, refuse_if, not_object, no_data_field, not_uint64,
  not_boolean, not_string, not_hex_string, exceeds_uint64, pubkey_differs,
}

-- `BeaconValidatorResponse["data"]`, with the validator it describes.
pub record BeaconValidator : Type 0 where
  pub index : Text
  pub status : Text
  pub balance : Text
  pub pubkey : Text
  pub withdrawal_credentials : Text
  pub slashed : Bool
  pub effective_balance : Text
  pub activation_eligibility_epoch : Text
  pub activation_epoch : Text
  pub exit_epoch : Text
  pub withdrawable_epoch : Text

-- `BeaconSyncingResponse["data"]`
pub record BeaconSyncing : Type 0 where
  pub head_slot : Text
  pub sync_distance : Text
  pub is_syncing : Bool
  pub is_optimistic : Bool
  pub el_offline : Bool

unfoldable pub parse_beacon_uint64 : Value → Result ℕ
parse_beacon_uint64 (str t) = do
  guard (is_canonical_decimal t) not_uint64
  refuse_if (ltb uint64_max (big_int t)) exceeds_uint64
  ok (big_int t)
parse_beacon_uint64 _ = err not_uint64

unfoldable pub require_beacon_boolean : Value → Result Bool
require_beacon_boolean (bool b) = ok b
require_beacon_boolean _ = err not_boolean

unfoldable pub require_beacon_string : Value → Result Text
require_beacon_string (str t) = ok t
require_beacon_string _ = err not_string

-- The text has `bytes` bytes of hex digits after the prefix.
unfoldable pub require_beacon_hex : Value → ℕ → Result Text
unfolding require_beacon_string
require_beacon_hex v bytes = do
  t ← require_beacon_string v
  guard (is_hex_of_length (bytes * 2) t) not_hex_string
  ok t

-- A text that `parseBeaconUint64` accepts.
unfoldable pub uint64_text : Value → Result Text
unfolding parse_beacon_uint64 require_beacon_string
uint64_text v = do parse_beacon_uint64 v; require_beacon_string v

unfoldable pub assert_beacon_validator_response_shape : Value → Text → Result BeaconValidator
assert_beacon_validator_response_shape reply requested_pubkey = do
  response ← as_beacon_object reply
  validator ← as_beacon_object (field_of "validator" response)
  index ← require_beacon_string (field_of "index" response)
  status ← require_beacon_string (field_of "status" response)
  balance ← uint64_text (field_of "balance" response)
  pubkey ← require_beacon_hex (field_of "pubkey" validator) 48
  guard (same_hex pubkey requested_pubkey) pubkey_differs
  credentials ← require_beacon_hex (field_of "withdrawal_credentials" validator) 32
  slashed ← require_beacon_boolean (field_of "slashed" validator)
  effective_balance ← uint64_text (field_of "effective_balance" validator)
  eligibility ← uint64_text (field_of "activation_eligibility_epoch" validator)
  activation ← uint64_text (field_of "activation_epoch" validator)
  exit ← uint64_text (field_of "exit_epoch" validator)
  withdrawable ← uint64_text (field_of "withdrawable_epoch" validator)
  ok (record {
    index = index;
    status = status;
    balance = balance;
    pubkey = pubkey;
    withdrawal_credentials = credentials;
    slashed = slashed;
    effective_balance = effective_balance;
    activation_eligibility_epoch = eligibility;
    activation_epoch = activation;
    exit_epoch = exit;
    withdrawable_epoch = withdrawable;
  })

unfoldable pub assert_beacon_syncing_response_shape : Value → Result BeaconSyncing
assert_beacon_syncing_response_shape reply = do
  syncing ← as_beacon_object reply
  head_slot ← uint64_text (field_of "head_slot" syncing)
  sync_distance ← uint64_text (field_of "sync_distance" syncing)
  is_syncing ← require_beacon_boolean (field_of "is_syncing" syncing)
  is_optimistic ← require_beacon_boolean (field_of "is_optimistic" syncing)
  el_offline ← require_beacon_boolean (field_of "el_offline" syncing)
  ok (record {
    head_slot = head_slot;
    sync_distance = sync_distance;
    is_syncing = is_syncing;
    is_optimistic = is_optimistic;
    el_offline = el_offline;
  })

-- `requireBeaconDataEnvelope`, with the object that `data` is.
unfoldable pub require_beacon_data_envelope : Value → Result Fields
require_beacon_data_envelope response = do
  body ← as_beacon_object response
  guard (has_field "data" body) no_data_field
  as_beacon_object (field_of "data" body)
