-- ===== src/Pool/Invariant.antt =====
-- What holds of the pool between two calls (contracts/ValidatorFundingPool.sol): its totals are the
-- sums of its mappings, and its balance covers what it owes.
pub mod Attempt
pub mod Opening
pub mod Closing
pub mod Deposits
pub mod Balance
pub mod Claims
use validator_funding_pool.Base.{
  ℕ, ◌+◌, ◌-◌, ◌*◌, ◌≤◌, ◌≡◌, refl, sym, Bool, true, false, not, List, [], arith, ◌==◌,
  if◌then◌else◌,
}
use mathlib.Core.Path.{subst}
use validator_funding_pool.Failure.{ok, err, Result, Ensures, returned, bind-Ensures}
use validator_funding_pool.Pool.Map.{Balances, get, total, mem, IsDistinct, sum}
use validator_funding_pool.Pool.{
  validator_deposit_wei, predeposit_wei, Stage, uninitialized, predeposited, funding, topped_up,
  PoolConfig, Pool, PoolEvent, Outcome, is_stage, gross_pool_proceeds, with_snapshot, receive_value,
}

-- The predeposit counts towards the operator's target.
abbrev pub reserve : PoolConfig → ℕ → ℕ
reserve c a = if a == c.operator then predeposit_wei else 0

-- Nobody has a share in the proceeds yet.
pub record NoShares (credited claimed : Balances) (total_credited total_claimed : ℕ) : Type 0 where
  pub no_credit : (a : ℕ) → get credited a ≡ 0
  pub no_claim : (a : ℕ) → get claimed a ≡ 0
  pub no_credits : total_credited ≡ 0
  pub no_claims : total_claimed ≡ 0

-- No attempt is open: nobody is listed, has a target or has funded anything.
pub record IsIdle (participants : List ℕ) (index targets active : Balances) (total_active : ℕ)
    : Type 0 where
  pub nobody : participants ≡ []
  pub no_index : (a : ℕ) → get index a ≡ 0
  pub no_target : (a : ℕ) → get targets a ≡ 0
  pub no_active : (a : ℕ) → get active a ≡ 0
  pub no_total : total_active ≡ 0

-- An attempt is open: the targets make up a validator, the operator is listed, and no participant has
-- funded more than the target asks.
pub record IsOpen (c : PoolConfig) (participants : List ℕ) (index targets active : Balances)
    (total_active : ℕ) : Type 0 where
  pub distinct : IsDistinct participants
  pub listed : (a : ℕ) → not (get index a == 0) ≡ mem a participants
  pub targeted : sum (get targets) participants ≡ validator_deposit_wei
  pub operator_listed : mem c.operator participants ≡ true
  pub capped : (a : ℕ) → mem a participants ≡ true → get active a + reserve c a ≤ get targets a
  pub funded : sum (get active) participants ≡ total_active
  pub unlisted : (a : ℕ) → mem a participants ≡ false → get active a ≡ 0
  pub untargeted : (a : ℕ) → mem a participants ≡ false → get targets a ≡ 0

-- The validator is topped up: the credits make up a validator, and nobody has claimed more than the
-- share of the proceeds.
pub record IsSettled (participants : List ℕ) (credited claimed : Balances)
    (total_credited total_claimed gross : ℕ) : Type 0 where
  pub distinct : IsDistinct participants
  pub shares : sum (get credited) participants ≡ validator_deposit_wei
  pub all_shares : total_credited ≡ validator_deposit_wei
  pub claims : sum (get claimed) participants ≡ total_claimed
  pub within :
      (a : ℕ)
      → mem a participants ≡ true
      → validator_deposit_wei * get claimed a ≤ gross * get credited a
  pub unlisted : (a : ℕ) → mem a participants ≡ false → get credited a ≡ 0

-- The exact value of `grossPoolProceeds`.
abbrev pub gross_of : Pool → ℕ
gross_of p = p.balance + p.total_claimed_wei - p.total_refundable_wei

abbrev pub Unshared : Pool → Type 0
Unshared p = NoShares p.credited_wei_of p.claimed_wei_of p.total_credited_wei p.total_claimed_wei

abbrev pub Idle : Pool → Type 0
Idle p =
    IsIdle p.participants p.participant_index_plus_one p.funding_target_wei_of
      p.active_funded_wei_of p.total_active_funded_wei
    × Unshared p

abbrev pub Open : PoolConfig → Pool → Type 0
Open c p =
    IsOpen c p.participants p.participant_index_plus_one p.funding_target_wei_of
      p.active_funded_wei_of p.total_active_funded_wei
    × Unshared p

abbrev pub Settled : Pool → Type 0
Settled p =
    IsSettled p.participants p.credited_wei_of p.claimed_wei_of p.total_credited_wei
      p.total_claimed_wei (gross_of p)

abbrev pub InStage : PoolConfig → Pool → Stage → Type 0
InStage c p uninitialized = Idle p
InStage c p predeposited = Idle p
InStage c p funding = Open c p
InStage c p topped_up = Settled p

-- What of the balance is the participants' own: the refunds, and what an open attempt has taken.
abbrev pub owed : Stage → Pool → ℕ
owed funding p = p.total_active_funded_wei + p.total_refundable_wei
owed _ p = p.total_refundable_wei

pub record Valid (c : PoolConfig) (p : Pool) : Type 0 where
  pub refundable : total p.refundable_wei_of ≡ p.total_refundable_wei
  pub covered : owed p.state p ≤ p.balance
  pub submitted : p.top_up_submitted ≡ is_stage p.state topped_up
  pub in_stage : InStage c p p.state

abbrev pub ValidOutcome : PoolConfig → Outcome → Type 0
ValidOutcome c o = Valid c o.0

pub with_snapshot-Valid :
    (c : PoolConfig) (p : Pool) (es : List PoolEvent)
    → Valid c p
    → Ensures (ValidOutcome c) (with_snapshot p es)
unfolding with_snapshot
with_snapshot-Valid c p es v = bind-Ensures (gross_pool_proceeds p) _ λ gross _. returned v

pub is_stage_iff : (s t : Stage) → is_stage s t ≡ true → s ≡ t
is_stage_iff uninitialized uninitialized h = refl
is_stage_iff predeposited predeposited h = refl
is_stage_iff funding funding h = refl
is_stage_iff topped_up topped_up h = refl
is_stage_iff uninitialized predeposited h = cc
is_stage_iff uninitialized funding h = cc
is_stage_iff uninitialized topped_up h = cc
is_stage_iff predeposited uninitialized h = cc
is_stage_iff predeposited funding h = cc
is_stage_iff predeposited topped_up h = cc
is_stage_iff funding uninitialized h = cc
is_stage_iff funding predeposited h = cc
is_stage_iff funding topped_up h = cc
is_stage_iff topped_up uninitialized h = cc
is_stage_iff topped_up predeposited h = cc
is_stage_iff topped_up funding h = cc

-- The invariant of a pool whose stage is known, in both directions.
pub record ValidIn (c : PoolConfig) (p : Pool) (s : Stage) : Type 0 where
  pub refundable : total p.refundable_wei_of ≡ p.total_refundable_wei
  pub covered : owed s p ≤ p.balance
  pub submitted : p.top_up_submitted ≡ is_stage s topped_up
  pub in_stage : InStage c p s

pub at_stage : (c : PoolConfig) (p : Pool) (s : Stage) → p.state ≡ s → Valid c p → ValidIn c p s
at_stage c p s e v = subst (ValidIn c p) e (record {
  refundable = v.refundable;
  covered = v.covered;
  submitted = v.submitted;
  in_stage = v.in_stage;
})

pub from_stage : (c : PoolConfig) (p : Pool) (s : Stage) → p.state ≡ s → ValidIn c p s → Valid c p
from_stage c p s e v =
    let w = subst (ValidIn c p) (sym e) v in
    record {
      refundable = w.refundable;
      covered = w.covered;
      submitted = w.submitted;
      in_stage = w.in_stage;
    }
