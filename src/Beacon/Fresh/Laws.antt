-- ===== src/Beacon/Fresh/Laws.antt =====
-- What the preflights of `fund` and `top-up` establish.
use validator_funding_pool.Base.{
  ℕ, ◌≤◌, ◌<◌, ◌≡◌, refl, sym, ◌↔◌, Bool, true, false, arith, leb, ◌==◌,
}
use mathlib.Core.Path.{subst}
use validator_funding_pool.Decimal.{Text, decimal}
use validator_funding_pool.Text.{same_hex, trim}
use validator_funding_pool.Text.Laws.{same_text_iff}
use validator_funding_pool.Value.{str}
use validator_funding_pool.Env.{Env, uint64_max}
use validator_funding_pool.Beacon.Shape.{BeaconValidator, parse_beacon_uint64}
use validator_funding_pool.Beacon.Shape.Laws.{parse_beacon_uint64_iff}
use validator_funding_pool.Beacon.Read.{
  PreflightReplies, Preflight, require_beacon_node_url, read_beacon_validator_preflight,
  assert_withdrawal_credentials, print_beacon_preflight,
}
use validator_funding_pool.Beacon.Fresh.{
  predeposit_gwei, assert_far_future, assert_fresh_predeposit_mutable_state, ConfirmationReader,
  confirm_excess_balance, has_withdrawal_credentials_at_url, assert_fresh_predeposit_head_state,
  settle_balance, assert_is_fresh_predeposit, assert_ready_for_funding, assert_still_fresh,
}
use validator_funding_pool.Failure.{
  ok, guard, balance_changed, Ensures, map-Ensures, returned, bind-Ensures, Ensures-sound,
}

-- The validator is unslashed, none of its epochs is set, and it holds a balance of `b` Gwei, the
-- predeposit at least.
pub record IsFresh (v : BeaconValidator) (b : ℕ) : Type 0 where
  pub balance : v.balance ≡ decimal b
  pub predeposited : predeposit_gwei ≤ b
  pub fits : b ≤ uint64_max
  pub unslashed : v.slashed ≡ false
  pub eligibility : v.activation_eligibility_epoch ≡ decimal uint64_max
  pub activation : v.activation_epoch ≡ decimal uint64_max
  pub exit : v.exit_epoch ≡ decimal uint64_max
  pub withdrawable : v.withdrawable_epoch ≡ decimal uint64_max

str_injective : (s t : Text) → str s ≡ str t → s ≡ t
str_injective s t e = cc

pub parse_text_iff :
    (t : Text) (n : ℕ) → (parse_beacon_uint64 (str t) ≡ ok n) ↔ ((t ≡ decimal n) × (n ≤ uint64_max))
parse_text_iff t n =
    let (sound, complete) = parse_beacon_uint64_iff (str t) n in
    (
      λ h. let (e, fits) = sound h in (str_injective t (decimal n) e, fits),
      λ (e, fits). complete (rw e, fits),
    )

assert_far_future_iff : (t : Text) → (assert_far_future t ≡ ok tt) ↔ (t ≡ decimal uint64_max)
unfolding assert_far_future
assert_far_future_iff t = (sound, complete)
  where
    sound : assert_far_future t ≡ ok tt → t ≡ decimal uint64_max
    sound h = ground (arith, (same_text_iff t (decimal uint64_max)).0)

    complete : t ≡ decimal uint64_max → assert_far_future t ≡ ok tt
    complete e = rw (
      e,
      (parse_text_iff (decimal uint64_max) uint64_max).1 (refl, omega arith),
      (same_text_iff (decimal uint64_max) (decimal uint64_max)).1 refl,
    )

mutable_state_split :
    (v : BeaconValidator) (b : ℕ)
    → (assert_fresh_predeposit_mutable_state v ≡ ok b) ↔ (
        (parse_beacon_uint64 (str v.balance) ≡ ok b)
        × (predeposit_gwei ≤ b)
        × (v.slashed ≡ false)
        × (assert_far_future v.activation_eligibility_epoch ≡ ok tt)
        × (assert_far_future v.activation_epoch ≡ ok tt)
        × (assert_far_future v.exit_epoch ≡ ok tt)
        × (assert_far_future v.withdrawable_epoch ≡ ok tt))
unfolding assert_fresh_predeposit_mutable_state
mutable_state_split v b = (λ h. ground arith, λ h. ground arith)

-- The check of the head state's mutable fields accepts exactly the fresh validators, and returns the
-- balance.
pub assert_fresh_predeposit_mutable_state_iff :
    (v : BeaconValidator) (b : ℕ) → (assert_fresh_predeposit_mutable_state v ≡ ok b) ↔ IsFresh v b
assert_fresh_predeposit_mutable_state_iff v b =
    let (split, join) = mutable_state_split v b in
    (
      λ h.
          let (balance, low, flag, eligibility, activation, exit, withdrawable) = split h in
          let (text, fits) = (parse_text_iff v.balance b).0 balance in
          record {
            balance = text;
            predeposited = low;
            fits = fits;
            unslashed = flag;
            eligibility = (assert_far_future_iff v.activation_eligibility_epoch).0 eligibility;
            activation = (assert_far_future_iff v.activation_epoch).0 activation;
            exit = (assert_far_future_iff v.exit_epoch).0 exit;
            withdrawable = (assert_far_future_iff v.withdrawable_epoch).0 withdrawable;
          },
      λ f. join (
        (parse_text_iff v.balance b).1 (f.balance, f.fits),
        f.predeposited,
        f.unslashed,
        (assert_far_future_iff v.activation_eligibility_epoch).1 f.eligibility,
        (assert_far_future_iff v.activation_epoch).1 f.activation,
        (assert_far_future_iff v.exit_epoch).1 f.exit,
        (assert_far_future_iff v.withdrawable_epoch).1 f.withdrawable,
      ),
    )

module _ (pubkey credentials : Text) where
  -- A preflight that was read of the node, with the pool's credentials.
  pub record Confirmed (replies : PreflightReplies) (p : Preflight) : Type 0 where
    pub read : read_beacon_validator_preflight replies pubkey ≡ ok p
    pub owned : same_hex p.validator.withdrawal_credentials credentials ≡ true

  -- A head state that shows the validator with the pool's credentials, fresh, holding `b` Gwei.
  pub record FreshHead (replies : PreflightReplies) (b : ℕ) : Type 0 where
    pub preflight : Preflight
    pub confirmed : Confirmed replies preflight
    pub fresh : IsFresh preflight.validator b

  owned_sound :
      (p : Preflight)
      → assert_withdrawal_credentials p credentials ≡ ok tt
      → same_hex p.validator.withdrawal_credentials credentials ≡ true
  unfolding assert_withdrawal_credentials
  owned_sound p h = ground arith

  head_state-Ensures :
      (replies : PreflightReplies) (compact : Bool)
      → Ensures
          (FreshHead replies)
          (assert_fresh_predeposit_head_state pubkey credentials replies compact)
  unfolding assert_fresh_predeposit_head_state
  head_state-Ensures replies compact =
      bind-Ensures (read_beacon_validator_preflight replies pubkey) _ λ preflight read.
        bind-Ensures (assert_withdrawal_credentials preflight credentials) _ λ _ owned.
          bind-Ensures (assert_fresh_predeposit_mutable_state preflight.validator) _
            λ balance fresh.
              bind-Ensures
                (elim compact [ true ↦ ok tt | false ↦ print_beacon_preflight preflight ]) _
                λ _ _. returned (record {
                  preflight = preflight;
                  confirmed = record { read = read; owned = owned_sound preflight owned };
                  fresh =
                      (assert_fresh_predeposit_mutable_state_iff preflight.validator balance).0
                        fresh;
                })

  -- The excess over the predeposit, if there is one, was typed in by the operator on a terminal and
  -- was still the same when the head was read again.
  pub data Consent (re_read : PreflightReplies) (reader : ConfirmationReader) (b : ℕ) : Type 0 where
    no_excess : b ≡ predeposit_gwei → Consent re_read reader b
    typed :
        predeposit_gwei < b
        → reader.is_tty ≡ true
        → trim reader.answer ≡ decimal b
        → FreshHead re_read b
        → Consent re_read reader b

  -- What `fund` and `top-up` know when their preflight returns a balance.
  pub record Ready (finalized head re_read : PreflightReplies) (reader : ConfirmationReader) (b : ℕ)
      : Type 0 where
    pub at_finalized : (p : Preflight) × Confirmed finalized p
    pub at_head : FreshHead head b
    pub consent : Consent re_read reader b

  finalized-Ensures :
      (replies : PreflightReplies)
      → Ensures (Confirmed replies) (has_withdrawal_credentials_at_url pubkey credentials replies)
  unfolding has_withdrawal_credentials_at_url
  finalized-Ensures replies =
      bind-Ensures (read_beacon_validator_preflight replies pubkey) _ λ preflight read.
        bind-Ensures (assert_withdrawal_credentials preflight credentials) _ λ _ owned.
          bind-Ensures (print_beacon_preflight preflight) _
            λ _ _. returned (record { read = read; owned = owned_sound preflight owned })

  confirmation_sound :
      (b : ℕ) (reader : ConfirmationReader)
      → confirm_excess_balance b reader ≡ ok tt
      → (reader.is_tty ≡ true) × (trim reader.answer ≡ decimal b)
  unfolding confirm_excess_balance
  confirmation_sound b reader h = ground (arith, (same_text_iff (trim reader.answer) (decimal b)).0)

  head_sound :
      (replies : PreflightReplies) (compact : Bool) (b : ℕ)
      → assert_fresh_predeposit_head_state pubkey credentials replies compact ≡ ok b
      → FreshHead replies b
  head_sound replies compact b h = Ensures-sound (head_state-Ensures replies compact) b h

  settle-Ensures :
      (re_read : PreflightReplies) (reader : ConfirmationReader) (b : ℕ) (small : Bool)
      → leb b predeposit_gwei ≡ small
      → predeposit_gwei ≤ b
      → Ensures
          (λ n. (n ≡ b) × Consent re_read reader b)
          (settle_balance pubkey credentials re_read reader b small)
  unfolding settle_balance
  settle-Ensures re_read reader b true e low = returned (refl, no_excess (ground arith))
  settle-Ensures re_read reader b false e low =
      bind-Ensures (confirm_excess_balance b reader) _ λ _ agreed.
        bind-Ensures (assert_fresh_predeposit_head_state pubkey credentials re_read false) _
          λ again third. bind-Ensures (guard (again == b) balance_changed) _ λ _ same.
            let (tty, text) = confirmation_sound b reader agreed in
            let unchanged : again ≡ b = ground arith in
            returned (
              refl,
              typed (ground arith) tty text
                  (subst (FreshHead re_read) unchanged (head_sound re_read false again third)),
            )

  Ready-Ensures :
      (env : Env) (finalized head re_read : PreflightReplies) (reader : ConfirmationReader)
      → Ensures
          (Ready finalized head re_read reader)
          (assert_is_fresh_predeposit pubkey credentials env finalized head re_read reader)
  unfolding assert_is_fresh_predeposit
  Ready-Ensures env finalized head re_read reader =
      bind-Ensures (require_beacon_node_url env) _ λ _ _.
        bind-Ensures (has_withdrawal_credentials_at_url pubkey credentials finalized) _ λ p first.
          bind-Ensures (assert_fresh_predeposit_head_state pubkey credentials head false) _
            λ b second.
              let at_head = head_sound head false b second in
              map-Ensures
                (λ n (same, consent). record {
                  at_finalized = (p, Ensures-sound (finalized-Ensures finalized) p first);
                  at_head = subst (FreshHead head) (sym same) at_head;
                  consent = subst (Consent re_read reader) (sym same) consent;
                })
                (settle-Ensures re_read reader b (leb b predeposit_gwei) refl
                  at_head.fresh.predeposited)

  -- The check before the broadcast passes only if the head is still fresh and holds the balance that
  -- the preflight returned.
  pub assert_still_fresh_sound :
      (env : Env) (replies : PreflightReplies) (b : ℕ)
      → assert_still_fresh pubkey credentials env replies b ≡ ok tt
      → FreshHead replies b
  unfolding assert_still_fresh
  assert_still_fresh_sound env replies b h = head_sound replies true b (ground arith)

  module _ (env : Env) (finalized head re_read : PreflightReplies) (reader : ConfirmationReader)
      (b : ℕ) where
    -- A balance that the preflight of `fund` returns was read at the head of a fresh validator with
    -- the pool's credentials, which the finalized state has too; and it is the predeposit, or the
    -- operator typed it in on a terminal and a second reading of the head found it unchanged.
    pub assert_ready_for_funding_sound :
        assert_ready_for_funding pubkey credentials env finalized head re_read reader ≡ ok b
        → Ready finalized head re_read reader b
    unfolding assert_ready_for_funding
    assert_ready_for_funding_sound h =
        Ensures-sound (Ready-Ensures env finalized head re_read reader) b h
