-- ===== src/Pool/Examples.antt =====
-- The theorems on the pool contract at a pool of two participants
-- (contracts/ValidatorFundingPool.sol).
use validator_funding_pool.Base.{
  ℕ, ◌+◌, ◌*◌, ◌≤◌, ◌≡◌, sym, ◌==◌, ◌↔◌, if◌then◌else◌, refl, ==_iff, Bool-cases, inl, inr, true,
  [], ◌∷◌, none, arith,
}
use validator_funding_pool.Failure.{ok, Succeeds}
use validator_funding_pool.Pool.Map.{get, mem, sum}
use validator_funding_pool.Pool.{
  ether, refunded, claimed, receive_value, claimable, gross_pool_proceeds,
}
use validator_funding_pool.Pool.Lifecycle.{close_expired_funding_attempt, top_up_validator}
use validator_funding_pool.Pool.Payout.{fund, refund_to, claim_to}
use validator_funding_pool.Pool.Call.{forced, exec, none, then_call}
use validator_funding_pool.Pool.Call.Laws.{Reachable-Valid}
use validator_funding_pool.Pool.Invariant.{Valid}
use validator_funding_pool.Pool.Arith.{snapshot}
use validator_funding_pool.Pool.Refunds.{after_refund, refund_to-pays}
use validator_funding_pool.Pool.Expiry.{IsClosed, close_expired_funding_attempt-Succeeds}
use validator_funding_pool.Pool.TopUp.{IsToppedUp, top_up_validator-Succeeds}
use validator_funding_pool.Pool.Funding.{accepts, funding_outcome, fund_iff}
use validator_funding_pool.Pool.Proceeds.{
  after_claim, claimable-covered, claim_to-pays, after_claim-claimable,
}
use validator_funding_pool.Pool.Call.Finality.{HasShares, Leads-HasShares}
use mathlib.Core.Path.{subst}
use validator_funding_pool.Pool.Trace.{
  config, hash, half_funded_pool, funded_pool, topped_up_pool, earning_pool, closed_pool,
  half_funded, funded, earning, closed,
}

Reachable-Valid_example : Valid config funded_pool
Reachable-Valid_example = Reachable-Valid hash config funded_pool funded

top_up_validator-Succeeds_example :
    Succeeds (λ o. IsToppedUp funded_pool o.0) (top_up_validator config funded_pool 7 80 true)
top_up_validator-Succeeds_example =
    top_up_validator-Succeeds config funded_pool 80 (Reachable-Valid hash config funded_pool funded)
      refl (omega arith) refl (omega arith)

close_expired_funding_attempt-Succeeds_example :
    Succeeds
      (λ o. IsClosed half_funded_pool o.0)
      (close_expired_funding_attempt half_funded_pool 151)
close_expired_funding_attempt-Succeeds_example =
    close_expired_funding_attempt-Succeeds config half_funded_pool 151
      (Reachable-Valid hash config half_funded_pool half_funded) refl (omega arith) (omega arith)

refund_to-pays_example :
    refund_to config closed_pool 7 9 true
    ≡ ok (
      after_refund closed_pool 7,
      refunded 7 9 ether ∷ snapshot (after_refund closed_pool 7) ∷ [],
    )
unfolding get
refund_to-pays_example =
    refund_to-pays config closed_pool 7 9 (Reachable-Valid hash config closed_pool closed)
      (omega arith) refl (omega arith) (omega arith)

-- The shares of the 16 ether that have arrived.
abbrev due : ℕ → ℕ
due a = if a == 7 then ether else 15 * ether

due_lem : (a : ℕ) → mem a (7 ∷ 8 ∷ []) ≡ true → claimable earning_pool a ≡ ok (due a)
unfolding claimable gross_pool_proceeds get
due_lem a m = elim (Bool-cases (a == 7)) [
  | inl e ↦ subst (λ x. claimable earning_pool x ≡ ok (due x)) (sym ((==_iff a 7).0 e)) refl
  | inr e ↦
      let last : a ≡ 8 = (==_iff a 8).0 (ground arith) in
      subst (λ x. claimable earning_pool x ≡ ok (due x)) (sym last) refl
]

claimable-covered_example : sum due (7 ∷ 8 ∷ []) + 0 ≤ 16 * ether
claimable-covered_example =
    claimable-covered config earning_pool due (Reachable-Valid hash config earning_pool earning)
      refl due_lem

claim_to-pays_example :
    claim_to config earning_pool 8 9 true
    ≡ ok (
      after_claim earning_pool 8 (15 * ether),
      claimed 8 9 (15 * ether) ∷ snapshot (after_claim earning_pool 8 (15 * ether)) ∷ [],
    )
unfolding claimable gross_pool_proceeds get
claim_to-pays_example =
    claim_to-pays config earning_pool 8 9 (15 * ether)
      (Reachable-Valid hash config earning_pool earning) refl refl (omega arith) refl (omega arith)

after_claim-claimable_example :
    claimable (after_claim earning_pool 8 (15 * ether)) 7 ≡ claimable earning_pool 7
unfolding claimable gross_pool_proceeds get
after_claim-claimable_example =
    after_claim-claimable config earning_pool 8 (15 * ether) 7
      (Reachable-Valid hash config earning_pool earning) refl refl (omega arith) (omega arith)

fund_iff_example :
    (fund config (receive_value half_funded_pool (30 * ether)) 8 (30 * ether) 70
      ≡ ok (funding_outcome half_funded_pool 8 (30 * ether)))
    ↔ ((accepts config half_funded_pool 8 (30 * ether) 70 ≡ true)
        × (funding_outcome half_funded_pool 8 (30 * ether)
            ≡ funding_outcome half_funded_pool 8 (30 * ether)))
unfolding get
fund_iff_example =
    fund_iff config half_funded_pool 8 (30 * ether) 70
      (Reachable-Valid hash config half_funded_pool half_funded) (omega arith)
      (funding_outcome half_funded_pool 8 (30 * ether))

Leads-HasShares_example :
    HasShares ((7, 2 * ether) ∷ (8, 30 * ether) ∷ []) (32 * ether) earning_pool
unfolding exec
Leads-HasShares_example =
    Leads-HasShares hash config topped_up_pool earning_pool
      (then_call (forced (16 * ether)) refl none) refl
