-- ===== src/Beacon/Examples.antt =====
-- A beacon node on a chain, with a validator that holds the predeposit, one that holds more, and one
-- that is active.
use text.Mathlib.Text.{◌==◌ as str_eq}
use validator_funding_pool.Base.{◌≡◌, refl, ◌⊎◌, true, false, String, [], none, some, if◌then◌else◌}
use validator_funding_pool.Decimal.{Text, decimal, is_canonical_decimal, big_int}
use validator_funding_pool.Text.{codes, same_text, same_hex, is_hex_of_length, trim, to_lower_case}
use validator_funding_pool.Value.{
  Value, str, bool, obj, arr, nil, Fields, field, end, field_of, has_field, property,
  as_beacon_object,
}
use validator_funding_pool.Value.Print.{hex_argument}
use validator_funding_pool.Env.{Env, AddressTest, env_text, normalize_hex_length}
use validator_funding_pool.Failure.{ok}
use validator_funding_pool.Beacon.Shape.{
  BeaconValidator, BeaconSyncing, parse_beacon_uint64, require_beacon_boolean,
  require_beacon_string, require_beacon_hex, uint64_text, assert_beacon_validator_response_shape,
  assert_beacon_syncing_response_shape, require_beacon_data_envelope,
}
use validator_funding_pool.Beacon.Shape.Laws.{
  IsWellFormed, assert_beacon_validator_response_shape_sound,
}
use validator_funding_pool.Beacon.Read.{
  Reply, json, PreflightReplies, fetch_beacon_json, require_beacon_node_url,
  assert_beacon_node_healthy, read_beacon_validator_preflight, assert_withdrawal_credentials,
  print_beacon_preflight,
}
use validator_funding_pool.Beacon.Fresh.{
  far_future_epoch, assert_far_future, assert_fresh_predeposit_mutable_state, ConfirmationReader,
  confirm_excess_balance, has_withdrawal_credentials_at_url, assert_fresh_predeposit_head_state,
  settle_balance, assert_is_fresh_predeposit, assert_ready_for_funding, assert_still_fresh,
}
use validator_funding_pool.Beacon.Fresh.Laws.{
  FreshHead, Ready, assert_ready_for_funding_sound, assert_still_fresh_sound,
}
use validator_funding_pool.Beacon.Exit.{
  beacon_spec_uint, assert_exit_eligible, assert_ready_for_exit_at_url, assert_ready_for_exit,
}
use validator_funding_pool.Beacon.Exit.Laws.{ReadyForExit, assert_ready_for_exit_iff}
use validator_funding_pool.Beacon.Chain.{
  assert_beacon_matches_chain_at_url, assert_beacon_matches_execution_chain, fetch_validator_list,
  assert_no_entry, assert_beacon_validator_absent, required_genesis_fork_version,
  read_beacon_genesis_fork_version,
}
use validator_funding_pool.Beacon.Chain.Laws.{
  MatchesChain, assert_beacon_matches_execution_chain_sound, assert_beacon_validator_absent_iff,
  read_beacon_genesis_fork_version_pinned,
}

abbrev pubkey : Text
pubkey =
    codes
      "0xaaaaaaaaaaaaaaaaaaaaaaaaaaaaaaaaaaaaaaaaaaaaaaaaaaaaaaaaaaaaaaaaaaaaaaaaaaaaaaaaaaaaaaaaaaaaaaaB"

abbrev credentials : Text
credentials = codes "0x010000000000000000000000abababababababababababababababababababab"

abbrev text_field : String → String → Fields → Fields
text_field name s = field name (str (codes s))

abbrev enveloped : Fields → Reply
enveloped fs = json (obj (field "data" (obj fs) end))

abbrev validator_with : (balance status epoch : String) → Fields
validator_with balance status epoch = text_field "index" "7" (
    text_field "balance" balance (
      text_field "status" status (
        field "validator"
          (obj (
            field "pubkey" (str pubkey) (
              field "withdrawal_credentials" (str credentials) (
                field "slashed" (bool false) (
                  text_field "effective_balance" "1000000000" (
                    text_field "activation_eligibility_epoch" epoch (
                      text_field "activation_epoch" epoch (
                        text_field "exit_epoch" "18446744073709551615"
                          (text_field "withdrawable_epoch" "18446744073709551615" end)))))))))
          end)))

abbrev syncing : Reply
syncing = enveloped (
    text_field "head_slot" "8800" (
      text_field "sync_distance" "0" (
        field "is_syncing" (bool false)
          (field "is_optimistic" (bool false) (field "el_offline" (bool false) end)))))

abbrev genesis : Reply
genesis = enveloped (text_field "genesis_fork_version" "0x00000000" end)

abbrev finality : Reply
finality =
    enveloped
      (field "finalized" (obj (text_field "epoch" "270" (text_field "root" "0x00" end))) end)

abbrev replies_about : Fields → PreflightReplies
replies_about v = record {
  syncing = syncing;
  genesis = genesis;
  finality = finality;
  validator = enveloped v;
}

abbrev far : String
far = "18446744073709551615"

abbrev deposited : PreflightReplies
deposited = replies_about (validator_with "1000000000" "pending_initialized" far)

abbrev excess : PreflightReplies
excess = replies_about (validator_with "1000000005" "pending_initialized" far)

abbrev active : PreflightReplies
active = replies_about (validator_with "32000000000" "active_ongoing" "10")

abbrev named : Env
named name = if str_eq name "BEACON_NODE_URL" then some (codes "http://localhost") else none

-- The operator types the balance, and a line end follows.
abbrev operator : ConfirmationReader
operator = record { is_tty = true; answer = codes " 1000000005" }

abbrev fresh : BeaconValidator
fresh = record {
  index = codes "7";
  status = codes "pending_initialized";
  balance = codes "1000000000";
  pubkey = pubkey;
  withdrawal_credentials = credentials;
  slashed = false;
  effective_balance = codes "1000000000";
  activation_eligibility_epoch = codes far;
  activation_epoch = codes far;
  exit_epoch = codes far;
  withdrawable_epoch = codes far;
}

assert_beacon_validator_response_shape_sound_example : IsWellFormed pubkey fresh
unfolding assert_beacon_validator_response_shape require_beacon_string uint64_text
    require_beacon_hex require_beacon_boolean as_beacon_object is_canonical_decimal big_int
    is_hex_of_length same_hex field_of
assert_beacon_validator_response_shape_sound_example =
    assert_beacon_validator_response_shape_sound
      (obj (validator_with "1000000000" "pending_initialized" far)) pubkey fresh refl

assert_ready_for_funding_sound_example :
    Ready pubkey credentials excess excess excess operator 1_000_000_005
unfolding assert_ready_for_funding assert_is_fresh_predeposit require_beacon_node_url
    has_withdrawal_credentials_at_url assert_fresh_predeposit_head_state settle_balance
    confirm_excess_balance read_beacon_validator_preflight assert_withdrawal_credentials
    print_beacon_preflight assert_beacon_node_healthy fetch_beacon_json require_beacon_data_envelope
    has_field property assert_beacon_syncing_response_shape assert_beacon_validator_response_shape
    require_beacon_string uint64_text require_beacon_hex require_beacon_boolean as_beacon_object
    is_canonical_decimal big_int is_hex_of_length same_hex field_of
    assert_fresh_predeposit_mutable_state assert_far_future parse_beacon_uint64 decimal same_text
    trim
assert_ready_for_funding_sound_example =
    assert_ready_for_funding_sound pubkey credentials named excess excess excess operator
      1_000_000_005 refl

assert_still_fresh_sound_example : FreshHead pubkey credentials deposited 1_000_000_000
unfolding assert_still_fresh require_beacon_node_url assert_fresh_predeposit_head_state
    read_beacon_validator_preflight assert_withdrawal_credentials print_beacon_preflight
    assert_beacon_node_healthy fetch_beacon_json require_beacon_data_envelope has_field property
    assert_beacon_syncing_response_shape assert_beacon_validator_response_shape
    require_beacon_string uint64_text require_beacon_hex require_beacon_boolean as_beacon_object
    is_canonical_decimal big_int is_hex_of_length same_hex field_of
    assert_fresh_predeposit_mutable_state assert_far_future parse_beacon_uint64 decimal same_text
    trim
assert_still_fresh_sound_example =
    assert_still_fresh_sound pubkey credentials named deposited 1_000_000_000 refl

abbrev spec : Reply
spec = enveloped (text_field "SLOTS_PER_EPOCH" "32" (text_field "SHARD_COMMITTEE_PERIOD" "256" end))

assert_ready_for_exit_iff_example :
    (env_text named "BEACON_NODE_URL" ≡ []) ⊎ ReadyForExit active spec pubkey credentials
unfolding assert_ready_for_exit assert_ready_for_exit_at_url assert_exit_eligible beacon_spec_uint
    far_future_epoch read_beacon_validator_preflight assert_withdrawal_credentials
    print_beacon_preflight assert_beacon_node_healthy fetch_beacon_json require_beacon_data_envelope
    has_field property assert_beacon_syncing_response_shape assert_beacon_validator_response_shape
    require_beacon_string uint64_text require_beacon_hex require_beacon_boolean as_beacon_object
    is_canonical_decimal big_int is_hex_of_length same_hex field_of parse_beacon_uint64 decimal
    same_text
assert_ready_for_exit_iff_example =
    (assert_ready_for_exit_iff active spec pubkey credentials named).0 refl

abbrev any_address : AddressTest
any_address strict t = true

abbrev deposit_config : Reply
deposit_config = enveloped (text_field "chain_id" "1" (text_field "address" "0xAb" end))

assert_beacon_matches_execution_chain_sound_example :
    ((true ≡ true) × MatchesChain any_address deposit_config 1 (codes "0xab"))
    ⊎ ((true ≡ false) × (false ≡ true) × (env_text named "BEACON_NODE_URL" ≡ []))
unfolding assert_beacon_matches_execution_chain assert_beacon_matches_chain_at_url fetch_beacon_json
    require_beacon_data_envelope has_field field_of as_beacon_object parse_beacon_uint64
    is_canonical_decimal big_int same_hex
assert_beacon_matches_execution_chain_sound_example =
    assert_beacon_matches_execution_chain_sound any_address deposit_config 1 (codes "0xab") named
      false true refl

abbrev nobody : Reply
nobody = json (obj (field "data" (arr nil) end))

assert_beacon_validator_absent_iff_example :
    (require_beacon_node_url named ≡ ok tt)
    × ((healthy : BeaconSyncing) × (assert_beacon_node_healthy syncing ≡ ok healthy))
    × ((body : Value) × (nobody ≡ json body) × (property "data" body ≡ ok (arr nil)))
unfolding assert_beacon_validator_absent require_beacon_node_url assert_beacon_node_healthy
    fetch_validator_list assert_no_entry fetch_beacon_json property field_of
    assert_beacon_syncing_response_shape require_beacon_string uint64_text require_beacon_boolean
    as_beacon_object parse_beacon_uint64 is_canonical_decimal big_int
assert_beacon_validator_absent_iff_example =
    (assert_beacon_validator_absent_iff named syncing nobody).0 refl

read_beacon_genesis_fork_version_pinned_example : codes "0x00000000" ≡ codes "0x00000000"
unfolding read_beacon_genesis_fork_version required_genesis_fork_version require_beacon_node_url
    assert_beacon_node_healthy fetch_beacon_json property field_of has_field
    require_beacon_data_envelope assert_beacon_syncing_response_shape require_beacon_string
    uint64_text require_beacon_boolean as_beacon_object parse_beacon_uint64 is_canonical_decimal
    big_int hex_argument normalize_hex_length to_lower_case same_text
read_beacon_genesis_fork_version_pinned_example =
    read_beacon_genesis_fork_version_pinned named 1 syncing genesis (codes "0x00000000")
      (codes "0x00000000") refl refl
