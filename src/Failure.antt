-- ===== src/Failure.antt =====
-- The errors that scripts/lib/common.ts throws, one constructor for each kind of `throw`, without
-- the text of the message; and the results of functions that may throw.
use validator_funding_pool.Base.{◌≡◌, refl, Bool, true, false, not, List, [], ◌∷◌, All}
use mathlib.Core.Path.{subst}

pub data Failure : Type 0 where
  -- A runtime error of the language: a property of `null` or `undefined` is read.
  type_error : Failure
  -- Parsing, and the environment.
  invalid_address missing_env not_canonical_decimal not_deposit_amount exceeds_uint64 : Failure
  not_hex wrong_hex_length : Failure
  funding_window_declared funding_window_unset funding_window_out_of_range : Failure
  participants_unset targets_unset allocation_lengths_differ : Failure
  expected_pool_malformed expected_pool_differs : Failure
  -- The beacon node and its replies.
  beacon_url_missing request_unfinished request_refused reply_unparsed : Failure
  not_object no_data_field not_uint64 not_boolean not_string not_hex_string : Failure
  node_syncing node_optimistic el_offline pubkey_differs credentials_differ : Failure
  beacon_chain_differs beacon_contract_invalid beacon_contract_differs : Failure
  list_unread list_malformed validator_exists : Failure
  fork_version_malformed fork_version_overruled fork_version_differs : Failure
  below_predeposit slashed epoch_set balance_changed : Failure
  confirmation_without_tty confirmation_differs : Failure
  spec_missing slots_per_epoch_zero not_active not_exit_eligible : Failure
  -- The signer and the transaction.
  no_account ledger_address_unset ledger_address_unknown : Failure
  expected_signer_malformed expected_signer_differs signer_invariant_violated : Failure
  sender_differs transaction_replaced transaction_reverted deployed_elsewhere : Failure
  estimate_failed fees_unread no_base_fee estimate_above_ceiling : Failure
  fund_via_transfer_malformed : Failure
  -- The deployment record.
  record_not_object record_chain_id record_address record_checksum record_hex : Failure
  record_window forwarder_null chain_differs no_code code_hash_differs : Failure
  credentials_not_derived record_differs not_canonical_contract : Failure
  fresh_pool_declared expected_forwarder_malformed expected_forwarder_differs : Failure
  forwarder_unrecorded fresh_forwarder_declared forwarder_pool_differs : Failure
  record_without_forwarder forwarder_differs : Failure
  -- The pool contract's errors; a panic of checked arithmetic; a call of the deposit contract that
  -- reverts.
  invalid_deposit_contract invalid_withdrawal_request_predeploy invalid_operator : Failure
  invalid_funding_window invalid_state not_operator not_participant zero_amount : Failure
  empty_participant_set too_many_participants invalid_participant duplicate_participant : Failure
  invalid_funding_target funding_targets_do_not_match_validator operator_target_too_small : Failure
  funding_closed funding_still_open funding_cap_exceeded funding_incomplete : Failure
  invalid_predeposit_value invalid_pubkey invalid_signature invalid_deposit_data_root : Failure
  exit_fee_read_failed exit_fee_too_high insufficient_exit_fee exit_request_failed : Failure
  nothing_to_refund nothing_to_claim invalid_recipient eth_payout_failed : Failure
  arithmetic_panic deposit_reverted : Failure
  -- The forwarder contract's errors.
  invalid_pool invalid_pool_withdrawal_credentials empty_balance sweep_failed : Failure
  -- The deployed code.
  not_whole_bytes range_outside ranges_overlap mask_above_ceiling : Failure
  artifact_missing artifact_unusable code_not_ours : Failure
  -- The deposit-data file.
  deposit_entry_missing predeposit_wei_differs committed_pubkey_differs : Failure
  expected_pubkey_malformed expected_pubkey_differs : Failure
  deposit_amount_differs deposit_credentials_differ deposit_pubkey_differs : Failure
  deposit_root_differs deposit_fork_differs deposit_signature_invalid : Failure
  deposit_network_differs amount_too_large_for_ssz : Failure
  committed_root_differs committed_signature_differs : Failure
  -- What the receipt and the pool say.
  credited_as_proceeds nothing_credited other_credit : Failure
  payout_missing payout_redirected : Failure
  swept_missing swept_partly sweep_not_landed : Failure
  attempt_differs deadline_after caller_target_differs operator_target_differs : Failure
  not_funding attempt_changed deadline_passed cap_dropped : Failure
  -- The amount to fund with.
  no_remaining_cap amount_exceeds_cap amount_is_zero : Failure

pub data Result {ℓ} (A : Type ℓ) : Type ℓ where
  ok : A → Result A
  err : Failure → Result A

-- `if (b) throw e`
abbrev pub refuse_if : Bool → Failure → Result (Unit {0})
refuse_if true e = err e
refuse_if false _ = ok tt

-- `if (!b) throw e`
abbrev pub guard : Bool → Failure → Result (Unit {0})
guard b e = refuse_if (not b) e

-- One statement after another: the second one is reached if the first one does not throw.
infixl 5 ◌>>=◌ ◌>>◌
abbrev pub ◌>>=◌ {ℓ κ} :
    {A : Type ℓ} {B : Type κ} (first : Result A) (next : A → Result B) → Result B
err e >>= next = err e
ok value >>= next = next value

abbrev pub ◌>>◌ {ℓ κ} : {A : Type ℓ} {B : Type κ} (first : Result A) (second : Result B) → Result B
first >> second = first >>= λ _. second

-- `try { m } catch { throw e }`
abbrev pub or_fail {ℓ} : {A : Type ℓ} → Result A → Failure → Result A
or_fail (ok a) e = ok a
or_fail (err _) e = err e

-- `for (const x of xs) f(x)` and `xs.map(f)`, which stop at the first error.
module _ {ℓ κ} {A : Type ℓ} {B : Type κ} where
  abbrev pub map_ok : (A → Result B) → List A → Result (List B)
  map_ok f [] = ok []
  map_ok f (x ∷ xs) = f x >>= λ y. (map_ok f xs >>= λ ys. ok (y ∷ ys))

  -- Where the two statements return, so did the first, and the second on what it returned.
  pub >>=-eq-ok :
      (first : Result A) (next : A → Result B) {final : B}
      → first >>= next ≡ ok final
      → (value : A) × (first ≡ ok value) × (next value ≡ ok final)
  >>=-eq-ok (err e) next thrown_first = cc
  >>=-eq-ok (ok value) next reached = (value, refl, reached)

module _ {ℓ κ ι} {A : Type ℓ} {B : Type κ} (P : B → Type ι) (f : A → Result B) where
  -- What holds of each result of `f` holds of all the results.
  pub map_ok-All :
      ((x : A) (y : B) → f x ≡ ok y → P y)
      → (xs : List A) (ys : List B) → map_ok f xs ≡ ok ys
      → All P ys
  map_ok-All each [] [] h = tt
  map_ok-All each [] (y ∷ ys) h = cc
  map_ok-All each (x ∷ xs) ys h =
      let (z, first, h') = >>=-eq-ok (f x) _ h in
      let (zs, rest, h'') = >>=-eq-ok (map_ok f xs) _ h' in
      let e : z ∷ zs ≡ ys = cc in subst (All P) e (each x z first, map_ok-All each xs zs rest)

-- What holds of the value of a result, if it has one; a rule for each step of a `do` block.
pub data Ensures {ℓ κ} {A : Type ℓ} (P : A → Type κ) : Result A → Type (ℓ ⊔ κ) where
  returned : {a : A} → P a → Ensures P (ok a)
  thrown : {e : Failure} → Ensures P (err e)

module _ {ℓ κ ι} {A : Type ℓ} {B : Type κ} {P : B → Type ι} where
  pub bind-Ensures :
      (m : Result A) (f : A → Result B)
      → ((a : A) → m ≡ ok a → Ensures P (f a))
      → Ensures P (m >>= f)
  bind-Ensures (ok a) f h = h a refl
  bind-Ensures (err e) f h = thrown

pub Ensures-sound {ℓ κ} :
    {A : Type ℓ} {P : A → Type κ} {r : Result A} → Ensures P r → (a : A) → r ≡ ok a → P a
Ensures-sound {P} (returned {a} p) b h = subst P (cc) p
Ensures-sound thrown b h = cc

pub map-Ensures {ℓ κ ι} :
    {A : Type ℓ} {P : A → Type κ} {Q : A → Type ι} {r : Result A}
    → ((a : A) → P a → Q a)
    → Ensures P r
    → Ensures Q r
map-Ensures f (returned {a} p) = returned (f a p)
map-Ensures f thrown = thrown

-- The result is a value, and what holds of it.
pub data Succeeds {ℓ κ} {A : Type ℓ} (P : A → Type κ) : Result A → Type (ℓ ⊔ κ) where
  succeeded : {a : A} → P a → Succeeds P (ok a)

pub Succeeds-with {ℓ κ ι} :
    {A : Type ℓ} {P : A → Type κ} {Q : A → Type ι} {r : Result A}
    → Succeeds P r
    → Ensures Q r
    → Succeeds (λ a. P a × Q a) r
Succeeds-with (succeeded {a} p) e = succeeded (p, Ensures-sound e a refl)

pub Succeeds-ok {ℓ κ} :
    {A : Type ℓ} {P : A → Type κ} {r : Result A} → Succeeds P r → (a : A) × (r ≡ ok a) × P a
Succeeds-ok (succeeded {a} p) = (a, refl, p)

module _ {ℓ κ ι} {A : Type ℓ} {B : Type κ} {P : A → Type ι} where
  pub bind-Succeeds {ι'} :
      {Q : B → Type ι'} (m : Result A) (f : A → Result B)
      → Succeeds P m
      → ((a : A) → m ≡ ok a → P a → Succeeds Q (f a))
      → Succeeds Q (m >>= f)
  bind-Succeeds m f (succeeded {a} p) h = h a refl p

pub always-Ensures {ℓ κ} :
    {A : Type ℓ} {P : A → Type κ} → ((a : A) → P a) → (r : Result A) → Ensures P r
always-Ensures h (ok a) = returned (h a)
always-Ensures h (err e) = thrown
