-- ===== src/Deployment/Examples.antt =====
-- A deployment record as it is written, the pool that it names, and the code of the system contracts.
use text.Mathlib.Text.{◌==◌ as str_eq}
use validator_funding_pool.Base.{◌≡◌, refl, true, String, Option, none, some, if◌then◌else◌}
use validator_funding_pool.Decimal.{Text, is_canonical_decimal, big_int, decimal}
use validator_funding_pool.Text.{codes, is_hex_of_length, same_hex, same_text, to_lower_case}
use validator_funding_pool.Value.{Value, nat, str, obj, Fields, field, end, field_of}
use validator_funding_pool.Env.{Env, AddressTest, env_text, as_address, parse_unsigned_decimal}
use validator_funding_pool.Deployment.{
  DeploymentRecord, require_record_object, require_chain_id, require_record_address,
  require_record_hex, require_record_window, require_record_forwarder,
  assert_deployment_record_shape,
}
use validator_funding_pool.Deployment.Shape.{IsDeployment, assert_deployment_record_shape_sound}
use validator_funding_pool.Deployment.Live.{
  PoolDeploymentConfig, derive_withdrawal_credentials, assert_deployment_matches_pool,
  CanonicalSystemContracts, assert_deployment_canonicity,
}
use validator_funding_pool.Deployment.Live.Laws.{
  MatchesRecord, assert_deployment_matches_pool_sound, assert_deployment_canonicity_iff,
}
use validator_funding_pool.Deployment.Forwarder.{
  declared_expected_forwarder, assert_expected_forwarder, assert_expected_forwarder_recorded,
}
use validator_funding_pool.Deployment.Forwarder.Laws.{
  ForwarderExpected, assert_expected_forwarder_recorded_iff,
}

abbrev hex_address : AddressTest
hex_address strict t = is_hex_of_length 40 t

abbrev pool : String
pool = "0x00000000000000000000000000000000000000aB"

abbrev operator : String
operator = "0x0000000000000000000000000000000000000001"

abbrev deposit : String
deposit = "0x00000000219ab540356cBB839Cbe05303d7705Fa"

abbrev predeploy : String
predeploy = "0x00000961Ef480Eb55e80D19ad83579A64c007002"

abbrev hash : String
hash = "0x1f1f1f1f1f1f1f1f1f1f1f1f1f1f1f1f1f1f1f1f1f1f1f1f1f1f1f1f1f1f1f1f"

abbrev credentials : String
credentials = "0x01000000000000000000000000000000000000000000000000000000000000ab"

abbrev text_field : String → String → Fields → Fields
text_field name s = field name (str (codes s))

abbrev written : Value
written = obj (
    field "chainId" (nat 1) (
      text_field "pool" pool (
        text_field "depositContract" deposit (
          text_field "depositContractCodeHash" hash (
            text_field "withdrawalRequestPredeploy" predeploy (
              text_field "withdrawalRequestPredeployCodeHash" hash (
                text_field "operator" operator (
                  text_field "fundingWindowDuration" "86400" (
                    text_field "withdrawalCredentials" credentials
                      (text_field "feeRecipientForwarder" operator end))))))))))

abbrev deployment : DeploymentRecord
deployment = record {
  chain_id = 1;
  pool = codes pool;
  deposit_contract = codes deposit;
  deposit_contract_code_hash = codes hash;
  withdrawal_request_predeploy = codes predeploy;
  withdrawal_request_predeploy_code_hash = codes hash;
  operator = codes operator;
  funding_window_duration = codes "86400";
  withdrawal_credentials = codes credentials;
  fee_recipient_forwarder = some (codes operator);
}

assert_deployment_record_shape_sound_example : IsDeployment hex_address deployment
unfolding assert_deployment_record_shape require_record_object require_chain_id
    require_record_address require_record_hex require_record_window require_record_forwarder
    field_of is_hex_of_length parse_unsigned_decimal is_canonical_decimal big_int
assert_deployment_record_shape_sound_example =
    assert_deployment_record_shape_sound hex_address written deployment refl

abbrev live : PoolDeploymentConfig
live = record {
  deposit_contract = codes deposit;
  withdrawal_request_predeploy = codes predeploy;
  operator = codes operator;
  withdrawal_credentials = codes credentials;
  funding_window_duration = 86400;
}

assert_deployment_matches_pool_sound_example : MatchesRecord hex_address live deployment live
unfolding assert_deployment_matches_pool derive_withdrawal_credentials as_address is_hex_of_length
    to_lower_case same_hex same_text big_int decimal
assert_deployment_matches_pool_sound_example =
    assert_deployment_matches_pool_sound hex_address live deployment live refl

abbrev same_digest : Text → Text
same_digest code = codes hash

abbrev code_at : Text → Option Text
code_at address = some (codes "0x60")

abbrev canonical : CanonicalSystemContracts
canonical = record {
  deposit_contract = codes "0x00000000219ab540356cBB839Cbe05303d7705Fa";
  deposit_contract_code_hash =
      codes "0x6c029a231254fadb724d63be769f75eedd66362df034a3e663252b49d062a666";
  withdrawal_request_predeploy = codes "0x00000961Ef480Eb55e80D19ad83579A64c007002";
  withdrawal_request_predeploy_code_hash =
      codes "0x0345a365d2f4c5975b9f1599abe0a2ee76b7a3a731bc68781bd04c84e4858f50";
}

abbrev canonical_hashes : Text × Text
canonical_hashes =
    (canonical.deposit_contract_code_hash, canonical.withdrawal_request_predeploy_code_hash)

assert_deployment_canonicity_iff_example :
    (same_hex live.deposit_contract canonical.deposit_contract ≡ true)
    × (same_hex live.withdrawal_request_predeploy canonical.withdrawal_request_predeploy ≡ true)
    × (same_hex canonical_hashes.0 canonical.deposit_contract_code_hash ≡ true)
    × (same_hex canonical_hashes.1 canonical.withdrawal_request_predeploy_code_hash ≡ true)
unfolding assert_deployment_canonicity same_hex
assert_deployment_canonicity_iff_example =
    (assert_deployment_canonicity_iff 1 live canonical_hashes canonical refl).0 refl

abbrev declared : Env
declared name = if str_eq name "EXPECTED_FORWARDER" then some (codes operator) else none

assert_expected_forwarder_recorded_iff_example :
    ForwarderExpected hex_address declared (some (codes operator))
unfolding assert_expected_forwarder_recorded assert_expected_forwarder declared_expected_forwarder
    env_text is_hex_of_length same_hex
assert_expected_forwarder_recorded_iff_example =
    (assert_expected_forwarder_recorded_iff hex_address declared deployment).0 refl
