-- ===== src/Deployment/Live.antt =====
-- The record against the connected chain (scripts/lib/common.ts, `assertDeploymentChain`,
-- `assertDeploymentMatchesPool`, `assertDeploymentSystemCodeHashes`, `assertDeploymentCanonicity`).
-- The answers of the pool and the code at an address are arguments, and viem's `keccak256` is a
-- parameter.
pub mod Laws
use validator_funding_pool.Base.{
  ℕ, Bool, true, false, List, [], ◌∷◌, ◌++◌, Option, none, some, ◌==◌, if◌then◌else◌,
}
use validator_funding_pool.Decimal.{Text, big_int, decimal}
use validator_funding_pool.Text.{codes, same_text, same_hex, to_lower_case}
use validator_funding_pool.Env.{AddressTest, as_address}
use validator_funding_pool.Failure.{
  Result, ok, err, ◌>>=◌, ◌>>◌, guard, refuse_if, chain_differs, no_code, code_hash_differs,
  credentials_not_derived, record_differs, not_canonical_contract,
}
use validator_funding_pool.Deployment.{DeploymentRecord}

unfoldable pub assert_deployment_chain : (chain_id : ℕ) → DeploymentRecord → Result ℕ
assert_deployment_chain chain_id deployment =
    guard (chain_id == deployment.chain_id) chain_differs >> ok chain_id

-- `t.slice(2)`
abbrev pub drop_two : Text → Text
drop_two (a ∷ b ∷ t) = t
drop_two t = []

-- The prefix 01, eleven zero bytes, and the address in lower case.
unfoldable pub derive_withdrawal_credentials : AddressTest → Text → Result Text
derive_withdrawal_credentials is_address pool = do
  address ← as_address is_address pool
  ok (codes "0x010000000000000000000000" ++ to_lower_case (drop_two address))

-- `PoolDeploymentConfig`
pub record PoolDeploymentConfig : Type 0 where
  pub deposit_contract : Text
  pub withdrawal_request_predeploy : Text
  pub operator : Text
  pub withdrawal_credentials : Text
  pub funding_window_duration : ℕ

-- `assertDeploymentField` of a text whose case does not matter.
abbrev pub assert_text_field : Text → Text → Result (Unit {0})
assert_text_field live recorded = guard (same_hex live recorded) record_differs

-- `assertDeploymentField` of numbers: the texts that they print as are the same.
abbrev pub assert_number_field : ℕ → ℕ → Result (Unit {0})
assert_number_field live recorded =
    guard (same_text (decimal live) (decimal recorded)) record_differs

-- `reported` is what the pool says of itself. The record's window is a numeral, as its shape check
-- has it, and `big_int` reads it.
unfoldable pub assert_deployment_matches_pool :
    AddressTest → (reported : PoolDeploymentConfig) → DeploymentRecord → Result PoolDeploymentConfig
assert_deployment_matches_pool is_address reported deployment = do
  derived ← derive_withdrawal_credentials is_address deployment.pool
  guard (same_hex reported.withdrawal_credentials derived) credentials_not_derived
  assert_text_field reported.deposit_contract deployment.deposit_contract
  assert_text_field reported.withdrawal_request_predeploy deployment.withdrawal_request_predeploy
  assert_text_field reported.operator deployment.operator
  assert_text_field reported.withdrawal_credentials deployment.withdrawal_credentials
  assert_number_field reported.funding_window_duration (big_int deployment.funding_window_duration)
  ok (record reported { withdrawal_credentials = derived })

unfoldable pub assert_has_code : Option Text → Result Text
assert_has_code none = err no_code
assert_has_code (some code) = refuse_if (same_text code (codes "0x")) no_code >> ok code

module _ (keccak256 : Text → Text) (get_code : Text → Option Text) where
  unfoldable pub code_hash : Text → Result Text
  code_hash address = assert_has_code (get_code address) >>= λ code. ok (keccak256 code)

  -- The hashes of the two system contracts, the deposit contract's first.
  unfoldable pub assert_deployment_system_code_hashes :
      DeploymentRecord → PoolDeploymentConfig → Result (Text × Text)
  assert_deployment_system_code_hashes deployment live = do
    deposit ← code_hash live.deposit_contract
    guard (same_hex deposit deployment.deposit_contract_code_hash) code_hash_differs
    predeploy ← code_hash live.withdrawal_request_predeploy
    guard (same_hex predeploy deployment.withdrawal_request_predeploy_code_hash) code_hash_differs
    ok (deposit, predeploy)

-- `CanonicalSystemContracts`
pub record CanonicalSystemContracts : Type 0 where
  pub deposit_contract : Text
  pub deposit_contract_code_hash : Text
  pub withdrawal_request_predeploy : Text
  pub withdrawal_request_predeploy_code_hash : Text

-- `CANONICAL_SYSTEM_CONTRACTS`
abbrev pub canonical_system_contracts : ℕ → Option CanonicalSystemContracts
canonical_system_contracts chain_id =
    if chain_id == 1
    then some (record {
      deposit_contract = codes "0x00000000219ab540356cBB839Cbe05303d7705Fa";
      deposit_contract_code_hash =
          codes "0x6c029a231254fadb724d63be769f75eedd66362df034a3e663252b49d062a666";
      withdrawal_request_predeploy = codes "0x00000961Ef480Eb55e80D19ad83579A64c007002";
      withdrawal_request_predeploy_code_hash =
          codes "0x0345a365d2f4c5975b9f1599abe0a2ee76b7a3a731bc68781bd04c84e4858f50";
    })
    else none

abbrev pub assert_canonical_field : Text → Text → Result (Unit {0})
assert_canonical_field live canonical = guard (same_hex live canonical) not_canonical_contract

-- A chain without an entry is warned of, and passes.
unfoldable pub assert_canonical :
    Option CanonicalSystemContracts
    → PoolDeploymentConfig
    → (hashes : Text × Text) → Result (Unit {0})
assert_canonical none live hashes = ok tt
assert_canonical (some c) live hashes = do
  assert_canonical_field live.deposit_contract c.deposit_contract
  assert_canonical_field live.withdrawal_request_predeploy c.withdrawal_request_predeploy
  assert_canonical_field hashes.0 c.deposit_contract_code_hash
  assert_canonical_field hashes.1 c.withdrawal_request_predeploy_code_hash

unfoldable pub assert_deployment_canonicity :
    ℕ → PoolDeploymentConfig → (hashes : Text × Text) → Result (Unit {0})
unfolding assert_canonical
assert_deployment_canonicity chain_id live hashes =
    assert_canonical (canonical_system_contracts chain_id) live hashes
