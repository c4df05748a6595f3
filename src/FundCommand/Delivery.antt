-- ===== src/FundCommand/Delivery.antt =====
-- What becomes of the payment that the `fund` command decides on (scripts/fund.ts,
-- contracts/ValidatorFundingPool.sol): the pool credits it, or the check of the receipt says that it
-- did not.
use validator_funding_pool.Base.{
  ℕ, ◌+◌, ◌-◌, ◌≤◌, ◌<◌, ◌≡◌, refl, sym, ◌∙◌, Bool, true, false, List, Option, some, arith, ltb,
  ◌==◌, Bool-cases, inl, inr, if◌then◌else◌, map,
}
use mathlib.Core.Path.{subst}
use validator_funding_pool.Decimal.{Text}
use validator_funding_pool.Env.{Env, AddressTest, env_big_int}
use validator_funding_pool.Fees.{fund_via_plain_transfer}
use validator_funding_pool.Failure.{
  ok, err, refuse_if, no_remaining_cap, amount_exceeds_cap, amount_is_zero, credited_as_proceeds,
  Ensures, returned, bind-Ensures, Ensures-sound, Succeeds, succeeded,
}
use validator_funding_pool.Receipt.{ObservedLog, FundingEvent, assert_funding_was_credited}
use validator_funding_pool.Pins.{
  FundingState, assert_funding_pins, state_funding, assert_still_fundable,
}
use validator_funding_pool.Pins.Fundable.{StillOpen, assert_still_fundable_iff}
use validator_funding_pool.Pool.Map.{get, mem}
use validator_funding_pool.Pool.{
  uint256_max, Stage, uninitialized, predeposited, funding, topped_up, PoolConfig, Pool, PoolEvent,
  Outcome, is_stage, is_participant, funding_remaining_wei_of, receive_value,
}
use validator_funding_pool.Pool.Payout.{fund, receive_transfer}
use validator_funding_pool.Pool.Call.{fund_call, transfer, exec}
use validator_funding_pool.Pool.Invariant.{reserve, Valid, ValidIn, at_stage}
use validator_funding_pool.Pool.Funding.{remaining_of, accepts, after_funding, fund-ok}
use validator_funding_pool.FundCommand.{
  ReviewedPool, reviewed_values, Payment, print_and_check_funding_review, amount_to_fund,
  decide_payment,
}
use validator_funding_pool.FundCommand.Views.{stage_number, funding_state, message_of}
use validator_funding_pool.FundCommand.Review.{TellsApart}
use validator_funding_pool.FundCommand.Logs.{WritesLogs, credit_is_seen, proceeds_are_seen}

stage_number_iff : (s : Stage) → stage_number s ≡ state_funding → s ≡ funding
stage_number_iff uninitialized h = ground arith
stage_number_iff predeposited h = ground arith
stage_number_iff funding h = refl
stage_number_iff topped_up h = ground arith

amount_to_fund-pos :
    (env : Env) (remaining : ℕ) → Ensures (λ amount. 0 < amount) (amount_to_fund env remaining)
unfolding amount_to_fund
amount_to_fund-pos env remaining =
    bind-Ensures (refuse_if (remaining == 0) no_remaining_cap) _ λ _ _.
      bind-Ensures (env_big_int env "AMOUNT_WEI" (some remaining)) _ λ amount _.
        bind-Ensures (refuse_if (ltb remaining amount) amount_exceeds_cap) _ λ _ _.
          bind-Ensures (refuse_if (amount == 0) amount_is_zero) _
            λ _ nonzero. returned (ground arith)

review-attempt :
    (env : Env) (caller : Text) (r : ReviewedPool)
    → Ensures
        (λ reviewed. r.funding_attempt ≡ reviewed.funding_attempt)
        (print_and_check_funding_review env caller r)
unfolding print_and_check_funding_review
review-attempt env caller r =
    bind-Ensures (assert_funding_pins env (reviewed_values caller r)) _ λ _ _. returned refl

-- What a decision rests on: the amount is positive, and the final re-read leaves room for it.
record Decided (is_address : AddressTest) (env : Env) (r : ReviewedPool) (s : FundingState)
    (payment : Payment) : Type 0 where
  positive : 0 < payment.amount
  still_open : StillOpen is_address env s payment.amount r.funding_attempt

decide_payment-Decided :
    (is_address : AddressTest) (env : Env) (ledger_accounts : List Text) (caller : Text)
    (r : ReviewedPool) (remaining : ℕ) (s : FundingState)
    → Ensures
        (Decided is_address env r s)
        (decide_payment is_address env ledger_accounts caller r remaining s)
unfolding decide_payment
decide_payment-Decided is_address env ledger_accounts caller r remaining s =
    bind-Ensures (print_and_check_funding_review env caller r) _ λ reviewed review.
      bind-Ensures (amount_to_fund env remaining) _ λ amount chosen.
        bind-Ensures (fund_via_plain_transfer env ledger_accounts) _ λ via_transfer _.
          bind-Ensures (assert_still_fundable is_address env s amount reviewed.funding_attempt) _
            λ _ last.
              let same : r.funding_attempt ≡ reviewed.funding_attempt =
                Ensures-sound (review-attempt env caller r) reviewed review in
              returned (record {
                positive = Ensures-sound (amount_to_fund-pos env remaining) amount chosen;
                still_open = subst (StillOpen is_address env s amount) (sym same) (
                    (assert_still_fundable_iff is_address env s amount reviewed.funding_attempt).0
                      last);
              })

-- Something remains only for a participant.
positive_listed :
    (c : PoolConfig) (p : Pool) (sender remaining : ℕ)
    → ValidIn c p funding
    → funding_remaining_wei_of c p sender ≡ ok remaining
    → 0 < remaining
    → is_participant p sender ≡ true
unfolding funding_remaining_wei_of
positive_listed c p sender remaining v h pos = elim (Bool-cases (is_participant p sender)) [
  | inl e ↦ e
  | inr e ↦
      let absent : mem sender p.participants ≡ false = sym (v.in_stage.0.listed sender) ∙ e in
      let none_asked = v.in_stage.0.untargeted sender absent in ground (arith, none_asked)
]

-- A positive amount that fits what remains is accepted by an open attempt.
accepts_remaining :
    (c : PoolConfig) (p : Pool) (sender remaining value now : ℕ)
    → ValidIn c p funding
    → p.state ≡ funding
    → funding_remaining_wei_of c p sender ≡ ok remaining
    → 0 < value
    → value ≤ remaining
    → now ≤ p.funding_deadline
    → accepts c p sender value now ≡ true
unfolding funding_remaining_wei_of
accepts_remaining c p sender remaining value now v stage h pos fits in_time =
    let e : is_stage p.state funding ≡ true = rw stage refl in
    let listed = positive_listed c p sender remaining v h (omega arith) in
    let exact = remaining_of c p sender 0 v listed in
    let r_is : get p.funding_target_wei_of sender
          - (get p.active_funded_wei_of sender + reserve c sender)
        ≡ remaining =
      cc in
    ground arith

-- The pool has credited the payment, and the check of the receipt accepts it.
pub record IsCredited (text : ℕ → Text) (c : PoolConfig) (log_of : PoolEvent → ObservedLog)
    (decode : ObservedLog → Option FundingEvent) (p : Pool) (sender amount : ℕ) (o : Outcome)
    : Type 0 where
  pool_after : o.0 ≡ after_funding p sender amount
  receipt :
      assert_funding_was_credited decode (text c.self) (text sender) (map log_of o.1) amount ≡ ok tt

-- While an attempt is open both ways of sending fund it.
sent_either_way :
    (keccak256 : List ℕ → ℕ) (c : PoolConfig) (p : Pool) (sender amount now : ℕ)
    (via_transfer : Bool)
    → p.state ≡ funding
    → exec keccak256 c p
        (if via_transfer then transfer sender amount now else fund_call sender amount now)
      ≡ fund c (receive_value p amount) sender amount now
unfolding exec receive_transfer
sent_either_way keccak256 c p sender amount now true stage =
    let e : is_stage p.state funding ≡ true = rw stage refl in rw (receive_transfer, e) refl
sent_either_way keccak256 c p sender amount now false stage = refl

module _ (text : ℕ → Text) (c : PoolConfig) (log_of : PoolEvent → ObservedLog)
    (decode : ObservedLog → Option FundingEvent) (apart : TellsApart text)
    (w : WritesLogs text c log_of decode) (keccak256 : List ℕ → ℕ) (p : Pool) (sender now : ℕ) where
  -- A payment that the fund command decides on, against its final re-read of a valid pool, is
  -- credited in full when it is mined in time with the pool as it was read, as a plain transfer and
  -- as a call of fund, if no balance overflows; and the check of the receipt then accepts it.
  pub decide_payment-IsCredited :
      (is_address : AddressTest) (env : Env) (ledger_accounts : List Text) (r : ReviewedPool)
      (earlier remaining timestamp : ℕ) (payment : Payment)
      → Valid c p
      → decide_payment is_address env ledger_accounts
          (text sender)
          r
          earlier
          (funding_state text c p sender remaining timestamp)
        ≡ ok payment
      → funding_remaining_wei_of c p sender ≡ ok remaining
      → now ≤ p.funding_deadline
      → p.balance + payment.amount + p.total_claimed_wei ≤ uint256_max
      → Succeeds
          (IsCredited text c log_of decode p sender payment.amount)
          (exec keccak256 c p (message_of payment sender now))
  decide_payment-IsCredited is_address env ledger_accounts r earlier remaining timestamp payment v
        decided left in_time small =
      let s = funding_state text c p sender remaining timestamp in
      let d =
        Ensures-sound
          (decide_payment-Decided is_address env ledger_accounts (text sender) r earlier s) payment
          decided in
      let stage = stage_number_iff p.state d.still_open.funding in
      let accepted =
        accepts_remaining c p sender remaining payment.amount now (at_stage c p funding stage v)
          stage left d.positive d.still_open.room in_time in
      let funded = fund-ok c p sender payment.amount now v small accepted in
      subst (Succeeds (IsCredited text c log_of decode p sender payment.amount))
        (sym (
          sent_either_way keccak256 c p sender payment.amount now payment.via_transfer stage
          ∙ funded))
        (succeeded (record {
          pool_after = refl;
          receipt =
              credit_is_seen text c log_of decode apart w sender
                (after_funding p sender payment.amount) p.funding_attempt payment.amount
                (get p.active_funded_wei_of sender + payment.amount)
                (p.total_active_funded_wei + payment.amount);
        }))

  -- A plain transfer that reaches a pool which has been topped up meanwhile succeeds and leaves its
  -- ether in the pool as proceeds, and the check of the receipt reports exactly that.
  pub message_of-proceeds :
      (amount : ℕ)
      → p.state ≡ topped_up
      → Succeeds
          (λ o.
            (o.0 ≡ receive_value p amount)
            × (assert_funding_was_credited decode
                  (text c.self)
                  (text sender)
                  (map log_of o.1)
                  amount
                ≡ err credited_as_proceeds))
          (exec keccak256 c p
            (message_of (record { via_transfer = true; amount = amount }) sender now))
  unfolding exec receive_transfer
  message_of-proceeds amount stage =
      let e1 : is_stage p.state funding ≡ false = rw stage refl in
      let e2 : is_stage p.state topped_up ≡ true = rw stage refl in
      rw (exec, receive_transfer, e1, e2)
        (succeeded (refl, proceeds_are_seen text c log_of decode apart w sender amount))
