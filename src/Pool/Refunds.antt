-- ===== src/Pool/Refunds.antt =====
-- A refund is always paid (contracts/ValidatorFundingPool.sol, `refundTo`).
use validator_funding_pool.Base.{
  ℕ, ◌+◌, ◌-◌, ◌≤◌, ◌<◌, ◌≡◌, refl, Bool, true, not, ◌||◌, [], ◌∷◌, arith, leb, ◌==◌,
}
use validator_funding_pool.Failure.{ok, refuse_if, nothing_to_refund}
use validator_funding_pool.Pool.Map.{get, set, get-le-total}
use validator_funding_pool.Pool.{
  uint256_max, Stage, uninitialized, predeposited, funding, topped_up, PoolConfig, Pool, refunded,
  validate_recipient,
}
use validator_funding_pool.Pool.Payout.{refund_to}
use validator_funding_pool.Pool.Arith.{checked-ok, checked_sub-ok, snapshot, with_snapshot-ok}
use validator_funding_pool.Pool.Invariant.{owed, Valid}

pub owed-refundable : (p : Pool) (s : Stage) → p.total_refundable_wei ≤ owed s p
owed-refundable p uninitialized = omega arith
owed-refundable p predeposited = omega arith
owed-refundable p funding = omega arith
owed-refundable p topped_up = omega arith

abbrev pub is_recipient : PoolConfig → ℕ → Bool
is_recipient c recipient = not (recipient == 0 || recipient == c.self)

-- The pool after a refund of all that the sender is owed.
abbrev pub after_refund : Pool → ℕ → Pool
after_refund p sender = record p {
  refundable_wei_of = set p.refundable_wei_of sender 0;
  total_refundable_wei = p.total_refundable_wei - get p.refundable_wei_of sender;
  total_refunded_wei = p.total_refunded_wei + get p.refundable_wei_of sender;
  balance = p.balance - get p.refundable_wei_of sender;
}

-- In a valid pool at any stage, a sender who is owed a refund is paid all of it, to any recipient
-- but the zero address and the pool, if the recipient takes it and the totals fit 256 bits.
pub refund_to-pays :
    (c : PoolConfig) (p : Pool) (sender recipient : ℕ)
    → Valid c p
    → 0 < get p.refundable_wei_of sender
    → is_recipient c recipient ≡ true
    → p.total_refunded_wei + get p.refundable_wei_of sender ≤ uint256_max
    → p.balance + p.total_claimed_wei ≤ uint256_max
    → refund_to c p sender recipient true
      ≡ ok (
        after_refund p sender,
        refunded sender recipient (get p.refundable_wei_of sender)
            ∷ snapshot (after_refund p sender)
            ∷ [],
      )
unfolding refund_to
refund_to-pays c p sender recipient v pos good small_refunds small =
    let amount = get p.refundable_wei_of sender in
    let own : amount ≤ p.total_refundable_wei =
      omega (arith, get-le-total p.refundable_wei_of sender, v.refundable) in
    let held : p.total_refundable_wei ≤ p.balance =
      omega (arith, owed-refundable p p.state, v.covered) in
    let e1 : validate_recipient c recipient ≡ ok tt = ground arith in
    let e2 : refuse_if (amount == 0) nothing_to_refund ≡ ok tt = ground arith in
    let e3 : leb amount p.balance ≡ true = ground arith in
    rw
      (
        e1,
        e2,
        checked_sub-ok p.total_refundable_wei amount own,
        checked-ok (p.total_refunded_wei + amount) small_refunds,
        e3,
        with_snapshot-ok (after_refund p sender) (refunded sender recipient amount ∷ [])
            (omega arith) (omega (arith, own)),
      )
      refl
