-- ===== src/Signer.antt =====
-- Which account signs, and which mined transaction counts as the one signed (scripts/lib/common.ts,
-- `resolveSigningWallet`, `assertActiveSigner`, `waitForSenderVerifiedReceipt`, `assertDeployedAt`).
pub mod Structure
pub mod Selection
pub mod Replacement
mod Examples
use validator_funding_pool.Base.{
  ℕ, Bool, true, false, not, ◌&&◌, String, List, [], ◌∷◌, ◌++◌, Option, none, some, ◌==◌,
  if◌then◌else◌,
}
use validator_funding_pool.Decimal.{Text, is_empty}
use validator_funding_pool.Text.{codes, same_text, same_hex}
use validator_funding_pool.Value.{Value}
use validator_funding_pool.Env.{Env, AddressTest, env_text}
use validator_funding_pool.Signer.Structure.{same_optional_structure}
use validator_funding_pool.Failure.{
  Result, ok, err, ◌>>=◌, ◌>>◌, guard, refuse_if, no_account, ledger_address_unset,
  ledger_address_unknown, expected_signer_malformed, expected_signer_differs,
  signer_invariant_violated, sender_differs, transaction_replaced, transaction_reverted,
  deployed_elsewhere,
}

-- The wallets that a connection reports are given by the addresses of their accounts.
abbrev pub find_wallet : Text → List Text → Option Text
find_wallet ledger [] = none
find_wallet ledger (w ∷ ws) = if same_hex w ledger then some w else find_wallet ledger ws

-- `LEDGER_ADDRESS`, which must be set.
abbrev pub ledger_address : Env → Result Text
ledger_address env =
    let address = env_text env "LEDGER_ADDRESS" in
    refuse_if (is_empty address) ledger_address_unset >> ok address

abbrev pub known_wallet : Option Text → Result Text
known_wallet none = err ledger_address_unknown
known_wallet (some w) = ok w

unfoldable pub resolve_signing_wallet : Env → (ledger_accounts wallets : List Text) → Result Text
resolve_signing_wallet env [] [] = err no_account
resolve_signing_wallet env [] (w ∷ ws) = ok w
resolve_signing_wallet env (_ ∷ _) wallets =
    ledger_address env >>= λ ledger. known_wallet (find_wallet ledger wallets)

-- `EXPECTED_SIGNER`, if it is declared.
unfoldable pub assert_expected_signer : AddressTest → Env → Text → Result (Unit {0})
assert_expected_signer is_address env active =
    let expected = env_text env "EXPECTED_SIGNER" in
    elim (is_empty expected) [
      | true ↦ ok tt
      | false ↦ do
        guard (is_address false expected) expected_signer_malformed
        guard (same_hex active expected) expected_signer_differs
    ]

unfoldable pub assert_ledger_signer : Env → (ledger_accounts : List Text) → Text → Result Text
assert_ledger_signer env [] active = ok active
assert_ledger_signer env (_ ∷ _) active = do
  ledger ← ledger_address env
  guard (same_hex active ledger) signer_invariant_violated
  ok active

unfoldable pub assert_active_signer :
    AddressTest → Env → (ledger_accounts : List Text) → Text → Result Text
assert_active_signer is_address env ledger_accounts active =
    assert_expected_signer is_address env active >> assert_ledger_signer env ledger_accounts active

pub data Status : Type 0 where
  success reverted : Status

-- `SenderVerifiedReceipt`
pub record SenderReceipt : Type 0 where
  pub sender : Text
  pub block_number : ℕ
  pub status : Status

-- `ObservedTransaction`; an optional field that is absent is `none`.
pub record ObservedTransaction : Type 0 where
  pub hash : Text
  pub destination : Option Text
  pub amount : ℕ
  pub input : Text
  pub type : Option Value
  pub access_list : Option Value
  pub blob_versioned_hashes : Option Value
  pub authorization_list : Option Value

pub record ObservedReplacement : Type 0 where
  pub reason : Text
  pub replaced_transaction : ObservedTransaction
  pub transaction : ObservedTransaction

-- `sameAddress`
unfoldable pub same_address : Option Text → Option Text → Bool
same_address none none = true
same_address (some s) (some t) = same_hex s t
same_address _ _ = false

-- The name of a field, if the test that the field is the same fails.
abbrev pub differing_if_not : Bool → String → List String
differing_if_not same name = if same then [] else name ∷ []

unfoldable pub differing_semantic_fields : (replaced mined : ObservedTransaction) → List String
unfolding same_address
differing_semantic_fields replaced mined =
    differing_if_not (same_address mined.destination replaced.destination) "to"
    ++ (differing_if_not (mined.amount == replaced.amount) "value"
        ++ (differing_if_not (same_hex mined.input replaced.input) "input"
            ++ (differing_if_not (same_optional_structure mined.type replaced.type) "type"
                ++ (differing_if_not
                      (same_optional_structure mined.access_list replaced.access_list) "accessList"
                    ++ (differing_if_not
                          (same_optional_structure mined.blob_versioned_hashes
                            replaced.blob_versioned_hashes)
                          "blobVersionedHashes"
                        ++ differing_if_not
                            (same_optional_structure mined.authorization_list
                              replaced.authorization_list)
                            "authorizationList")))))

abbrev pub is_none_left : List String → Bool
is_none_left [] = true
is_none_left (_ ∷ _) = false

unfoldable pub assert_acceptable_replacement : ObservedReplacement → Result (Unit {0})
assert_acceptable_replacement r =
    guard
      (same_text r.reason (codes "repriced")
        && is_none_left (differing_semantic_fields r.replaced_transaction r.transaction))
      transaction_replaced

abbrev pub assert_success : Status → Result (Unit {0})
assert_success success = ok tt
assert_success reverted = err transaction_reverted

abbrev pub assert_no_other_transaction : Option ObservedReplacement → Result (Unit {0})
assert_no_other_transaction none = ok tt
assert_no_other_transaction (some r) = assert_acceptable_replacement r

-- The receipt that the client waits for, and the replacement it reports through `onReplaced`.
unfoldable pub wait_for_sender_verified_receipt :
    SenderReceipt → Option ObservedReplacement → (intended_sender : Text) → Result SenderReceipt
wait_for_sender_verified_receipt receipt replacement intended_sender = do
  guard (same_hex receipt.sender intended_sender) sender_differs
  assert_no_other_transaction replacement
  assert_success receipt.status
  ok receipt

unfoldable pub assert_deployed_at :
    (receipt_contract_address : Option Text) (expected : Text) → Result (Unit {0})
assert_deployed_at none expected = err deployed_elsewhere
assert_deployed_at (some a) expected = guard (same_hex a expected) deployed_elsewhere
