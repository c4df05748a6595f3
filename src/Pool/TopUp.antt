-- ===== src/Pool/TopUp.antt =====
-- The top-up of an attempt that is funded in time succeeds (contracts/ValidatorFundingPool.sol,
-- `topUpValidator`).
use validator_funding_pool.Base.{
  ℕ, ◌+◌, ◌-◌, ◌≤◌, ◌≡◌, refl, true, false, List, [], ◌∷◌, arith, ltb, leb, ◌==◌,
}
use validator_funding_pool.Failure.{
  ok, refuse_if, invalid_state, Succeeds, succeeded, Succeeds-with, bind-Succeeds,
}
use validator_funding_pool.Pool.Map.{Balances, get, set, mem, sum}
use validator_funding_pool.Pool.{
  uint256_max, validator_deposit_wei, top_up_wei, funding, topped_up, PoolConfig, Pool, is_stage,
}
use validator_funding_pool.Pool.Lifecycle.{credit_targets, topped_up_with, top_up_validator}
use validator_funding_pool.Pool.Arith.{checked-ok, with_snapshot-ok}
use validator_funding_pool.Pool.Invariant.{Valid, at_stage}
use validator_funding_pool.Pool.Invariant.Deposits.{credit_targets-IsCredited}

credit_targets-Succeeds :
    (targets credited : Balances) (before : ℕ) (listed : List ℕ)
    → before + sum (get targets) listed ≤ uint256_max
    → Succeeds (λ r. Unit {0}) (credit_targets targets credited before listed)
unfolding credit_targets
credit_targets-Succeeds targets credited before [] small = succeeded tt
credit_targets-Succeeds targets credited before (a ∷ rest) small =
    rw (checked-ok (before + get targets a) (omega arith)) (
      credit_targets-Succeeds targets (set credited a (get targets a)) (before + get targets a) rest
        (omega arith))

-- Each participant's target has become the credit, and the rest of the validator's deposit is paid.
pub record IsToppedUp (p q : Pool) : Type 0 where
  stage : q.state ≡ topped_up
  credits :
      (a : ℕ)
      → mem a p.participants ≡ true
      → get q.credited_wei_of a ≡ get p.funding_target_wei_of a
  all_credits : q.total_credited_wei ≡ validator_deposit_wei
  paid : q.balance + top_up_wei ≡ p.balance
  refunds_kept : q.total_refundable_wei ≡ p.total_refundable_wei

-- When an attempt of a valid pool has taken 31 ether, the operator's top-up up to the deadline
-- succeeds, if the deposit contract accepts it and the balance fits 256 bits: the pool is topped
-- up, each participant is credited with the target, the credits make up 32 ether, 31 ether is paid,
-- and the refunds are kept.
pub top_up_validator-Succeeds :
    (c : PoolConfig) (p : Pool) (now : ℕ)
    → Valid c p
    → p.state ≡ funding
    → now ≤ p.funding_deadline
    → p.total_active_funded_wei ≡ top_up_wei
    → p.balance ≤ uint256_max
    → Succeeds (λ o. IsToppedUp p o.0) (top_up_validator c p c.operator now true)
unfolding top_up_validator
top_up_validator-Succeeds c p now v stage in_time full small =
    let w = at_stage c p funding stage v in
    let e : is_stage p.state funding ≡ true = rw stage refl in
    let own : (c.operator == c.operator) ≡ true = ground arith in
    let open_yet : ltb p.funding_deadline now ≡ false = ground arith in
    let complete : (p.total_active_funded_wei == top_up_wei) ≡ true = ground arith in
    let held : ltb p.balance (top_up_wei + p.total_refundable_wei) ≡ false =
      ground (arith, w.covered) in
    let payable : leb top_up_wei p.balance ≡ true = ground (arith, w.covered) in
    let unsent : refuse_if p.top_up_submitted invalid_state ≡ ok tt = rw w.submitted refl in
    let credits = w.in_stage.0.targeted in
    rw
      (
        top_up_validator,
        own,
        e,
        open_yet,
        complete,
        checked-ok (top_up_wei + p.total_refundable_wei) (omega (arith, w.covered)),
        held,
        unsent,
      )
      (bind-Succeeds
        (credit_targets p.funding_target_wei_of p.credited_wei_of p.total_credited_wei
          p.participants)
        _
        (Succeeds-with
          (credit_targets-Succeeds p.funding_target_wei_of p.credited_wei_of p.total_credited_wei
            p.participants (omega (arith, credits, w.in_stage.1.no_credits)))
          (credit_targets-IsCredited p.funding_target_wei_of p.credited_wei_of p.total_credited_wei
            p.participants w.in_stage.0.distinct))
        λ r looped made.
          let whole : r.1 ≡ validator_deposit_wei =
            omega (arith, made.1.all, credits, w.in_stage.1.no_credits) in
          let same : (r.1 == validator_deposit_wei) ≡ true = ground arith in
          let paid = topped_up_with (record p { balance = p.balance - top_up_wei }) r.0 r.1 in
          let fits : paid.balance + paid.total_claimed_wei ≤ uint256_max =
            omega (arith, w.in_stage.1.no_claims) in
          rw (same, payable, with_snapshot-ok paid _ fits (omega (arith, w.covered)))
            (succeeded (record {
              stage = refl;
              credits = made.1.own;
              all_credits = whole;
              paid = omega (arith, w.covered);
              refunds_kept = refl;
            })))
