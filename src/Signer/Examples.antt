-- ===== src/Signer/Examples.antt =====
-- Two wallets of a connection with a Ledger, and a transaction that was sent again at another price.
use text.Mathlib.Text.{◌==◌ as str_eq}
use validator_funding_pool.Base.{
  ◌≡◌, refl, ◌⊎◌, true, false, List, [], ◌∷◌, none, some, if◌then◌else◌,
}
use validator_funding_pool.Decimal.{Text, is_empty}
use validator_funding_pool.Text.{codes, same_text, same_hex, to_lower_case}
use validator_funding_pool.Value.{str, arr, nil, cons}
use validator_funding_pool.Env.{Env, AddressTest, env_text}
use validator_funding_pool.Failure.{ok}
use validator_funding_pool.Signer.{
  SenderReceipt, success, ObservedTransaction, ObservedReplacement, resolve_signing_wallet,
  assert_expected_signer, assert_active_signer, wait_for_sender_verified_receipt,
  assert_acceptable_replacement, differing_semantic_fields,
}
use validator_funding_pool.Signer.Selection.{
  FirstWith, resolve_signing_wallet_iff, assert_active_signer-resolve_signing_wallet,
}
use validator_funding_pool.Signer.Structure.{canonical_structure, same_optional_structure}
use validator_funding_pool.Signer.Replacement.{Repriced, wait_for_sender_verified_receipt_iff}

abbrev declared : Env
declared name = if str_eq name "LEDGER_ADDRESS" then some (codes "0xAB") else none

abbrev device : List Text
device = codes "0xab" ∷ []

-- The node's own account comes first.
abbrev wallets : List Text
wallets = codes "0xcd" ∷ codes "0xab" ∷ []

resolve_signing_wallet_iff_example :
    (is_empty (env_text declared "LEDGER_ADDRESS") ≡ false)
    × FirstWith (env_text declared "LEDGER_ADDRESS") wallets (codes "0xab")
unfolding resolve_signing_wallet env_text same_hex
resolve_signing_wallet_iff_example =
    (resolve_signing_wallet_iff declared (codes "0xab") [] wallets (codes "0xab")).0 refl

abbrev any_address : AddressTest
any_address strict t = true

assert_active_signer-resolve_signing_wallet_example :
    assert_active_signer any_address declared device (codes "0xab") ≡ ok (codes "0xab")
unfolding resolve_signing_wallet assert_expected_signer env_text same_hex
assert_active_signer-resolve_signing_wallet_example =
    assert_active_signer-resolve_signing_wallet any_address declared device wallets (codes "0xab")
      refl refl

abbrev transaction_with : Text → ObservedTransaction
transaction_with hash = record {
  hash = hash;
  destination = some (codes "0xab");
  amount = 5;
  input = codes "0x";
  type = some (str (codes "eip1559"));
  access_list = none;
  blob_versioned_hashes = none;
  authorization_list = none;
}

abbrev replacement : ObservedReplacement
replacement = record {
  reason = codes "repriced";
  replaced_transaction = transaction_with (codes "0x1");
  transaction = transaction_with (codes "0x2");
}

abbrev receipt : SenderReceipt
receipt = record { sender = codes "0xaB"; block_number = 1; status = success }

wait_for_sender_verified_receipt_iff_example :
    (receipt ≡ receipt)
    × (to_lower_case (codes "0xaB") ≡ to_lower_case (codes "0xab"))
    × (success ≡ success)
    × ((some replacement ≡ none)
        ⊎ ((r : ObservedReplacement) × (some replacement ≡ some r) × Repriced r))
unfolding wait_for_sender_verified_receipt assert_acceptable_replacement differing_semantic_fields
    same_optional_structure same_text same_hex
wait_for_sender_verified_receipt_iff_example =
    (wait_for_sender_verified_receipt_iff receipt (some replacement) (codes "0xab") receipt).0 refl

-- Two arrays that differ, and render as the same text.
one_text-two_texts :
    canonical_structure (arr (cons (str (codes "a,string:b")) nil))
    ≡ canonical_structure (arr (cons (str (codes "a")) (cons (str (codes "b")) nil)))
unfolding canonical_structure to_lower_case
one_text-two_texts = refl
