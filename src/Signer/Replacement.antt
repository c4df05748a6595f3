-- ===== src/Signer/Replacement.antt =====
-- Which mined transaction is accepted for the one that was signed.
mod Hashes
use mathlib.Core.Option
use validator_funding_pool.Base.{
  ◌≡◌, refl, ◌↔◌, ◌⊎◌, inl, inr, Bool, true, false, String, List, ◌++◌, Option, none, some, arith,
  ==_iff, and-true,
}
use validator_funding_pool.Decimal.{Text}
use validator_funding_pool.Value.{Value}
use validator_funding_pool.Text.{codes, same_text, same_hex, to_lower_case}
use validator_funding_pool.Text.Laws.{same_text_iff, same_hex_iff}
use validator_funding_pool.Failure.{ok, guard, sender_differs, transaction_replaced, >>=-eq-ok}
use validator_funding_pool.Signer.Structure.{canonical_structure, same_optional_structure}
use validator_funding_pool.Signer.{
  Status, success, reverted, SenderReceipt, ObservedTransaction, ObservedReplacement, same_address,
  differing_if_not, differing_semantic_fields, is_none_left, assert_acceptable_replacement,
  assert_no_other_transaction, assert_success, wait_for_sender_verified_receipt,
}

-- What the comparison of two transactions holds them to. The structured fields are compared by their
-- renderings, which two different structures may share.
pub record SameRendering (replaced mined : ObservedTransaction) : Type 0 where
  pub destination :
      Option.map to_lower_case mined.destination ≡ Option.map to_lower_case replaced.destination
  pub amount : mined.amount ≡ replaced.amount
  pub input : to_lower_case mined.input ≡ to_lower_case replaced.input
  pub type :
      Option.map canonical_structure mined.type ≡ Option.map canonical_structure replaced.type
  pub access_list :
      Option.map canonical_structure mined.access_list
      ≡ Option.map canonical_structure replaced.access_list
  pub blob_versioned_hashes :
      Option.map canonical_structure mined.blob_versioned_hashes
      ≡ Option.map canonical_structure replaced.blob_versioned_hashes
  pub authorization_list :
      Option.map canonical_structure mined.authorization_list
      ≡ Option.map canonical_structure replaced.authorization_list

same_address_iff :
    (a b : Option Text)
    → (same_address a b ≡ true) ↔ (Option.map to_lower_case a ≡ Option.map to_lower_case b)
unfolding same_address
same_address_iff none none = (λ h. refl, λ h. refl)
same_address_iff none (some t) = (λ h. cc, λ h. cc)
same_address_iff (some s) none = (λ h. cc, λ h. cc)
same_address_iff (some s) (some t) =
    (λ h. cc ((same_hex_iff s t).0 h), λ e. (same_hex_iff s t).1 cc)

same_optional_structure_iff :
    (v w : Option Value)
    → (same_optional_structure v w ≡ true)
      ↔ (Option.map canonical_structure v ≡ Option.map canonical_structure w)
unfolding same_optional_structure
same_optional_structure_iff none none = (λ h. refl, λ h. refl)
same_optional_structure_iff none (some w) = (λ h. cc, λ h. cc)
same_optional_structure_iff (some v) none = (λ h. cc, λ h. cc)
same_optional_structure_iff (some v) (some w) =
    let texts = same_text_iff (canonical_structure v) (canonical_structure w) in
    (λ h. cc (texts.0 h), λ e. texts.1 cc)

none_left_append :
    (b : Bool) (name : String) (rest : List String)
    → (is_none_left (differing_if_not b name ++ rest) ≡ true)
      ↔ ((b ≡ true) × (is_none_left rest ≡ true))
none_left_append true name rest = (λ h. (refl, h), λ (_, h). h)
none_left_append false name rest = (λ h. cc, λ (e, _). cc)

none_left_last :
    (b : Bool) (name : String) → (is_none_left (differing_if_not b name) ≡ true) ↔ (b ≡ true)
none_left_last true name = (λ h. refl, λ h. refl)
none_left_last false name = (λ h. cc, λ h. cc)

none_left_iff :
    (replaced mined : ObservedTransaction)
    → (is_none_left (differing_semantic_fields replaced mined) ≡ true)
      ↔ SameRendering replaced mined
unfolding differing_semantic_fields
none_left_iff replaced mined = (sound, complete)
  where
    sound :
        is_none_left (differing_semantic_fields replaced mined) ≡ true
        → SameRendering replaced mined
    sound h =
        let (destination, h1) = (none_left_append _ _ _).0 h in
        let (amount, h2) = (none_left_append _ _ _).0 h1 in
        let (input, h3) = (none_left_append _ _ _).0 h2 in
        let (type, h4) = (none_left_append _ _ _).0 h3 in
        let (access_list, h5) = (none_left_append _ _ _).0 h4 in
        let (blob_versioned_hashes, h6) = (none_left_append _ _ _).0 h5 in
        record {
          destination = (same_address_iff _ _).0 destination;
          amount = (==_iff mined.amount replaced.amount).0 amount;
          input = (same_hex_iff mined.input replaced.input).0 input;
          type = (same_optional_structure_iff _ _).0 type;
          access_list = (same_optional_structure_iff _ _).0 access_list;
          blob_versioned_hashes = (same_optional_structure_iff _ _).0 blob_versioned_hashes;
          authorization_list = (same_optional_structure_iff _ _).0 ((none_left_last _ _).0 h6);
        }

    complete :
        SameRendering replaced mined
        → is_none_left (differing_semantic_fields replaced mined) ≡ true
    complete m = rw (
      (same_address_iff _ _).1 m.destination,
      (==_iff mined.amount replaced.amount).1 m.amount,
      (same_hex_iff mined.input replaced.input).1 m.input,
      (same_optional_structure_iff _ _).1 m.type,
      (same_optional_structure_iff _ _).1 m.access_list,
      (same_optional_structure_iff _ _).1 m.blob_versioned_hashes,
      (same_optional_structure_iff _ _).1 m.authorization_list,
    )

-- The client reports the replacement as repriced, and the comparison finds no difference.
pub Repriced : ObservedReplacement → Type 0
Repriced r = (r.reason ≡ codes "repriced") × SameRendering r.replaced_transaction r.transaction

assert_acceptable_replacement_iff :
    (r : ObservedReplacement) → (assert_acceptable_replacement r ≡ ok tt) ↔ Repriced r
unfolding assert_acceptable_replacement Repriced
assert_acceptable_replacement_iff r = (sound, complete)
  where
    reason : (same_text r.reason (codes "repriced") ≡ true) ↔ (r.reason ≡ codes "repriced")
    reason = same_text_iff r.reason (codes "repriced")

    meaning :
        (is_none_left (differing_semantic_fields r.replaced_transaction r.transaction) ≡ true)
        ↔ SameRendering r.replaced_transaction r.transaction
    meaning = none_left_iff r.replaced_transaction r.transaction

    passed : (b : Bool) → guard b transaction_replaced ≡ ok tt → b ≡ true
    passed true h = refl
    passed false h = cc

    sound : assert_acceptable_replacement r ≡ ok tt → Repriced r
    sound h = let (said, left) = and-true _ _ (passed _ h) in (reason.0 said, meaning.0 left)

    complete : Repriced r → assert_acceptable_replacement r ≡ ok tt
    complete (said, same) = rw (reason.1 said, meaning.1 same)

-- A receipt is returned exactly when it is the one that the client waited for, the intended sender
-- sent it, up to the case of the address, it succeeded, and the transaction was not replaced, or
-- replaced by one that the client reports as repriced, with the same destination and calldata up to
-- case, the same value, and the same rendering by `canonicalStructure` of the type, the access list,
-- the blob hashes and the authorization list.
pub wait_for_sender_verified_receipt_iff :
    (receipt : SenderReceipt) (replacement : Option ObservedReplacement) (intended_sender : Text)
    (returned : SenderReceipt)
    → (wait_for_sender_verified_receipt receipt replacement intended_sender ≡ ok returned) ↔ (
        (returned ≡ receipt)
        × (to_lower_case receipt.sender ≡ to_lower_case intended_sender)
        × (receipt.status ≡ success)
        × ((replacement ≡ none)
            ⊎ ((r : ObservedReplacement) × (replacement ≡ some r) × Repriced r)))
unfolding wait_for_sender_verified_receipt
wait_for_sender_verified_receipt_iff receipt replacement intended_sender returned =
    (sound, complete)
  where
    succeeded : (s : Status) → assert_success s ≡ ok tt → s ≡ success
    succeeded success h = refl
    succeeded reverted h = cc

    accepted :
        (o : Option ObservedReplacement)
        → assert_no_other_transaction o ≡ ok tt
        → (o ≡ none) ⊎ ((r : ObservedReplacement) × (o ≡ some r) × Repriced r)
    accepted none h = inl refl
    accepted (some r) h = inr (r, refl, (assert_acceptable_replacement_iff r).0 h)

    acceptable :
        (o : Option ObservedReplacement)
        → (o ≡ none) ⊎ ((r : ObservedReplacement) × (o ≡ some r) × Repriced r)
        → assert_no_other_transaction o ≡ ok tt
    acceptable o (inl e) = rw e
    acceptable o (inr (r, e, repriced)) = rw (e, (assert_acceptable_replacement_iff r).1 repriced)

    sound :
        wait_for_sender_verified_receipt receipt replacement intended_sender ≡ ok returned
        → (returned ≡ receipt)
          × (to_lower_case receipt.sender ≡ to_lower_case intended_sender)
          × (receipt.status ≡ success)
          × ((replacement ≡ none)
              ⊎ ((r : ObservedReplacement) × (replacement ≡ some r) × Repriced r))
    sound h =
        let (_, sender, h') =
          >>=-eq-ok (guard (same_hex receipt.sender intended_sender) sender_differs) _ h in
        let (_, other, h'') = >>=-eq-ok (assert_no_other_transaction replacement) _ h' in
        let (_, status, given) = >>=-eq-ok (assert_success receipt.status) _ h'' in
        (
          cc,
          (same_hex_iff receipt.sender intended_sender).0 (ground arith),
          succeeded receipt.status status,
          accepted replacement other,
        )

    complete :
        (returned ≡ receipt)
          × (to_lower_case receipt.sender ≡ to_lower_case intended_sender)
          × (receipt.status ≡ success)
          × ((replacement ≡ none)
              ⊎ ((r : ObservedReplacement) × (replacement ≡ some r) × Repriced r))
        → wait_for_sender_verified_receipt receipt replacement intended_sender ≡ ok returned
    complete (same, sender, status, unreplaced) =
        let sent = (same_hex_iff receipt.sender intended_sender).1 sender in
        let passes : wait_for_sender_verified_receipt receipt replacement intended_sender
            ≡ ok receipt =
          rw (sent, status, acceptable replacement unreplaced) in
        cc
