-- ===== src/Pool/Arith.antt =====
-- The checked arithmetic of the pool contract and its snapshots, where nothing overflows
-- (contracts/ValidatorFundingPool.sol).
use validator_funding_pool.Base.{ℕ, ◌+◌, ◌-◌, ◌≤◌, ◌≡◌, refl, List, [], ◌∷◌, ◌++◌, arith}
use validator_funding_pool.Failure.{ok}
use validator_funding_pool.Pool.{
  uint256_max, Pool, PoolEvent, accounting_snapshot, checked, checked_sub, gross_pool_proceeds,
  with_snapshot,
}
use validator_funding_pool.Pool.Invariant.{gross_of}

pub checked-ok : (n : ℕ) → n ≤ uint256_max → checked n ≡ ok n
checked-ok n h = ground arith

pub checked_sub-ok : (a b : ℕ) → b ≤ a → checked_sub a b ≡ ok (a - b)
checked_sub-ok a b h = ground arith

-- The snapshot that a call ends with.
abbrev pub snapshot : Pool → PoolEvent
snapshot p =
    accounting_snapshot p.state p.funding_attempt p.balance p.total_active_funded_wei
      p.total_refundable_wei p.total_refunded_wei p.total_credited_wei p.total_claimed_wei
      (gross_of p)

pub gross_pool_proceeds-ok :
    (p : Pool)
    → p.balance + p.total_claimed_wei ≤ uint256_max
    → p.total_refundable_wei ≤ p.balance
    → gross_pool_proceeds p ≡ ok (gross_of p)
unfolding gross_pool_proceeds
gross_pool_proceeds-ok p small covered =
    rw (checked-ok (p.balance + p.total_claimed_wei) small)
      (checked_sub-ok (p.balance + p.total_claimed_wei) p.total_refundable_wei (omega arith))

pub with_snapshot-ok :
    (p : Pool) (es : List PoolEvent)
    → p.balance + p.total_claimed_wei ≤ uint256_max
    → p.total_refundable_wei ≤ p.balance
    → with_snapshot p es ≡ ok (p, es ++ (snapshot p ∷ []))
unfolding with_snapshot
with_snapshot-ok p es small covered = rw (gross_pool_proceeds-ok p small covered) refl
