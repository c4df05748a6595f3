-- ===== src/Pool/Funding.antt =====
-- Exactly which funding the pool accepts (contracts/ValidatorFundingPool.sol, `_fund`).
use validator_funding_pool.Base.{
  ℕ, ◌+◌, ◌-◌, ◌≤◌, ◌≡◌, ◌↔◌, refl, sym, ◌∙◌, Bool, true, false, not, ◌&&◌, [], ◌∷◌, arith, ltb,
  leb, ◌==◌,
}
use validator_funding_pool.Failure.{
  ok, guard, refuse_if, invalid_state, funding_closed, not_participant, zero_amount,
  funding_cap_exceeded, Ensures, bind-Ensures, Ensures-sound, always-Ensures,
}
use validator_funding_pool.Pool.Map.{get, set, mem, get-le-sum}
use validator_funding_pool.Pool.{
  uint256_max, funding, PoolConfig, Pool, Outcome, participant_funded, checked, is_stage,
  is_participant, funding_remaining_wei_of, receive_value,
}
use validator_funding_pool.Pool.Payout.{fund}
use validator_funding_pool.Pool.Arith.{checked-ok, snapshot, with_snapshot-ok}
use validator_funding_pool.Pool.Invariant.{reserve, Valid, ValidIn, at_stage, is_stage_iff}

-- The sender's target leaves room for the value, beside what was funded and the predeposit.
abbrev pub has_room : PoolConfig → Pool → (sender value : ℕ) → Bool
has_room c p sender value =
    leb (get p.active_funded_wei_of sender + value + reserve c sender)
      (get p.funding_target_wei_of sender)

abbrev pub accepts : PoolConfig → Pool → (sender value now : ℕ) → Bool
accepts c p sender value now =
    is_stage p.state funding
    && leb now p.funding_deadline
    && is_participant p sender
    && not (value == 0)
    && has_room c p sender value

-- The pool after an accepted funding.
abbrev pub after_funding : Pool → (sender value : ℕ) → Pool
after_funding p sender value = record p {
  active_funded_wei_of =
      set p.active_funded_wei_of sender (get p.active_funded_wei_of sender + value);
  total_active_funded_wei = p.total_active_funded_wei + value;
  balance = p.balance + value;
}

-- That pool, and the two events that are emitted.
abbrev pub funding_outcome : Pool → (sender value : ℕ) → Outcome
funding_outcome p sender value = (
  after_funding p sender value,
  participant_funded p.funding_attempt sender value (get p.active_funded_wei_of sender + value)
        (p.total_active_funded_wei + value)
      ∷ snapshot (after_funding p sender value)
      ∷ [],
)

-- `fundingRemainingWeiOf` of a participant of an open attempt.
pub remaining_of :
    (c : PoolConfig) (p : Pool) (sender value : ℕ)
    → ValidIn c p funding
    → is_participant p sender ≡ true
    → funding_remaining_wei_of c (receive_value p value) sender
      ≡ ok (
          get p.funding_target_wei_of sender
          - (get p.active_funded_wei_of sender + reserve c sender))
unfolding funding_remaining_wei_of
remaining_of c p sender value v listed =
    let m : mem sender p.participants ≡ true = sym (v.in_stage.0.listed sender) ∙ listed in
    let room = v.in_stage.0.capped sender m in ground (arith, room)

module _ (c : PoolConfig) (p : Pool) (sender value now : ℕ) (v : Valid c p)
    (small : p.balance + value + p.total_claimed_wei ≤ uint256_max) where
  pub fund-ok :
      accepts c p sender value now ≡ true
      → fund c (receive_value p value) sender value now ≡ ok (funding_outcome p sender value)
  unfolding fund
  fund-ok h =
      let stage : p.state ≡ funding = is_stage_iff p.state funding (ground arith) in
      let w = at_stage c p funding stage v in
      let e1 : is_stage p.state funding ≡ true = ground arith in
      let e2 : ltb p.funding_deadline now ≡ false = ground arith in
      let e3 : is_participant p sender ≡ true = ground arith in
      let m : mem sender p.participants ≡ true = sym (w.in_stage.0.listed sender) ∙ e3 in
      let e7 : (get p.participant_index_plus_one sender == 0) ≡ false = ground arith in
      let e4 : refuse_if (value == 0) zero_amount ≡ ok tt = ground arith in
      let e5 = remaining_of c p sender value w e3 in
      let e6 : ltb
            (get p.funding_target_wei_of sender
              - (get p.active_funded_wei_of sender + reserve c sender))
            value
          ≡ false =
        ground arith in
      let own : get p.active_funded_wei_of sender ≤ p.total_active_funded_wei = omega (
        arith,
        get-le-sum (get p.active_funded_wei_of) sender p.participants m,
        w.in_stage.0.funded,
      ) in
      rw
        (
          e1,
          e2,
          e7,
          e4,
          e5,
          e6,
          checked-ok (get p.active_funded_wei_of sender + value) (omega (arith, w.covered)),
          checked-ok (p.total_active_funded_wei + value) (omega (arith, w.covered)),
          with_snapshot-ok (after_funding p sender value) _ small (omega (arith, w.covered)),
        )
        refl

  fund-Ensures :
      Ensures
        (λ o. accepts c p sender value now ≡ true)
        (fund c (receive_value p value) sender value now)
  unfolding fund
  fund-Ensures = bind-Ensures (guard (is_stage p.state funding) invalid_state) _ λ _ stage.
      let e : p.state ≡ funding = is_stage_iff p.state funding (ground arith) in
      let w = at_stage c p funding e v in
      bind-Ensures (refuse_if (ltb p.funding_deadline now) funding_closed) _ λ _ in_time.
        bind-Ensures (guard (is_participant p sender) not_participant) _ λ _ listed.
          bind-Ensures (refuse_if (value == 0) zero_amount) _ λ _ nonzero.
            let e5 = remaining_of c p sender value w (ground arith) in
            bind-Ensures (funding_remaining_wei_of c (receive_value p value) sender) _
              λ r remaining. bind-Ensures (refuse_if (ltb r value) funding_cap_exceeded) _ λ _ fits.
                bind-Ensures (checked (get p.active_funded_wei_of sender + value)) _ λ new_funded _.
                  bind-Ensures (checked (p.total_active_funded_wei + value)) _ λ new_total _.
                    let r_is : get p.funding_target_wei_of sender
                          - (get p.active_funded_wei_of sender + reserve c sender)
                        ≡ r =
                      cc in
                    let accepted : accepts c p sender value now ≡ true = ground arith in
                    always-Ensures (λ o. accepted) _

  -- In a valid pool, with totals that fit 256 bits, a funding returns an outcome exactly when an
  -- attempt is open, the deadline has not passed, the sender is a participant, the value is not
  -- zero, and the target has room for it beside the predeposit, and when the outcome is the pool
  -- with the amount added to the sender's and the total, and the two events. Every other funding
  -- reverts.
  pub fund_iff :
      (o : Outcome)
      → (fund c (receive_value p value) sender value now ≡ ok o)
        ↔ ((accepts c p sender value now ≡ true) × (o ≡ funding_outcome p sender value))
  fund_iff o = (sound, complete)
    where
      sound :
          fund c (receive_value p value) sender value now ≡ ok o
          → (accepts c p sender value now ≡ true) × (o ≡ funding_outcome p sender value)
      sound h =
          let accepted = Ensures-sound fund-Ensures o h in (accepted, cc (sym h ∙ fund-ok accepted))

      complete :
          (accepts c p sender value now ≡ true) × (o ≡ funding_outcome p sender value)
          → fund c (receive_value p value) sender value now ≡ ok o
      complete (accepted, e) = cc (fund-ok accepted)
