-- ===== src/Deployment.antt =====
-- The deployment record and its comparison with the chain (scripts/lib/common.ts, from
-- `assertDeploymentRecordShape` to `codeHash`, and `deriveWithdrawalCredentials`).
pub mod Shape
pub mod Live
pub mod Forwarder
mod Examples
use validator_funding_pool.Base.{ℕ, Bool, true, false, String, Option, none, some, ltb}
use validator_funding_pool.Decimal.{Text}
use validator_funding_pool.Text.{codes, is_hex_of_length}
use validator_funding_pool.Value.{Value, Fields, undefined, null, nat, str, obj, field_of}
use validator_funding_pool.Env.{AddressTest, parse_unsigned_decimal}
use validator_funding_pool.Failure.{
  Result, ok, err, ◌>>=◌, ◌>>◌, guard, refuse_if, record_not_object, record_chain_id,
  record_address, record_checksum, record_hex, record_window, forwarder_null,
}

-- `DeploymentRecord`
pub record DeploymentRecord : Type 0 where
  pub chain_id : ℕ
  pub pool : Text
  pub deposit_contract : Text
  pub deposit_contract_code_hash : Text
  pub withdrawal_request_predeploy : Text
  pub withdrawal_request_predeploy_code_hash : Text
  pub operator : Text
  pub funding_window_duration : Text
  pub withdrawal_credentials : Text
  pub fee_recipient_forwarder : Option Text

unfoldable pub require_record_object : Value → Result Fields
require_record_object (obj fs) = ok fs
require_record_object _ = err record_not_object

-- `chainId`, a positive whole number.
unfoldable pub require_chain_id : Value → Result ℕ
require_chain_id (nat n) = guard (ltb 0 n) record_chain_id >> ok n
require_chain_id _ = err record_chain_id

unfoldable pub require_record_address : AddressTest → Value → Result Text
require_record_address is_address (str t) = do
  guard (is_address false t) record_address
  guard (is_address true t) record_checksum
  ok t
require_record_address is_address _ = err record_address

unfoldable pub require_record_hex : Value → Result Text
require_record_hex (str t) = guard (is_hex_of_length 64 t) record_hex >> ok t
require_record_hex _ = err record_hex

unfoldable pub require_record_window : Value → Result Text
require_record_window (str t) = parse_unsigned_decimal t >> ok t
require_record_window _ = err record_window

-- An absent forwarder and an undefined one are alike.
unfoldable pub require_record_forwarder : AddressTest → Value → Result (Option Text)
require_record_forwarder is_address undefined = ok none
require_record_forwarder is_address null = err forwarder_null
require_record_forwarder is_address v = require_record_address is_address v >>= λ a. ok (some a)

unfoldable pub assert_deployment_record_shape : AddressTest → Value → Result DeploymentRecord
assert_deployment_record_shape is_address value = do
  given ← require_record_object value
  chain_id ← require_chain_id (field_of "chainId" given)
  pool ← require_record_address is_address (field_of "pool" given)
  deposit ← require_record_address is_address (field_of "depositContract" given)
  predeploy ← require_record_address is_address (field_of "withdrawalRequestPredeploy" given)
  operator ← require_record_address is_address (field_of "operator" given)
  deposit_hash ← require_record_hex (field_of "depositContractCodeHash" given)
  predeploy_hash ← require_record_hex (field_of "withdrawalRequestPredeployCodeHash" given)
  credentials ← require_record_hex (field_of "withdrawalCredentials" given)
  window ← require_record_window (field_of "fundingWindowDuration" given)
  forwarder ← require_record_forwarder is_address (field_of "feeRecipientForwarder" given)
  ok (record {
    chain_id = chain_id;
    pool = pool;
    deposit_contract = deposit;
    deposit_contract_code_hash = deposit_hash;
    withdrawal_request_predeploy = predeploy;
    withdrawal_request_predeploy_code_hash = predeploy_hash;
    operator = operator;
    funding_window_duration = window;
    withdrawal_credentials = credentials;
    fee_recipient_forwarder = forwarder;
  })
