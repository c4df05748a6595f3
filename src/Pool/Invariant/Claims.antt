-- ===== src/Pool/Invariant/Claims.antt =====
-- Claims stay within the proceeds and within the balance (contracts/ValidatorFundingPool.sol,
-- `claimable`, `claimTo`).
use validator_funding_pool.Base.{
  ℕ, ◌+◌, ◌-◌, ◌*◌, ◌/◌, ◌≤◌, ◌<◌, ◌≡◌, refl, sym, ◌∙◌, Bool, true, not, ◌&&◌, List, arith, ◌==◌,
  ==_iff, Bool-cases, inl, inr,
}
use mathlib.Core.Path.{subst}
use validator_funding_pool.Failure.{
  ok, guard, refuse_if, invalid_state, nothing_to_claim, Ensures, returned, bind-Ensures,
  Ensures-sound,
}
use validator_funding_pool.Pool.Map.{
  Balances, get, set, mem, sum, get-set_self, get-set_other, sum-set, sum-le, sum-scale,
}
use validator_funding_pool.Pool.{
  validator_deposit_wei, topped_up, PoolConfig, Pool, checked, is_stage, gross_pool_proceeds,
  claimable, validate_recipient, send_eth,
}
use validator_funding_pool.Pool.Payout.{claim_to}
use validator_funding_pool.Pool.Invariant.{
  IsSettled, gross_of, Valid, ValidIn, ValidOutcome, with_snapshot-Valid, is_stage_iff, at_stage,
  from_stage,
}
use validator_funding_pool.Pool.Invariant.Attempt.{checked_sound}
use validator_funding_pool.Pool.Invariant.Balance.{IsSettled-grow, send_eth-Ensures}

module _ (participants : List ℕ) (credited claimed : Balances)
    (total_credited total_claimed gross : ℕ) where
  -- All claims together are within the proceeds.
  pub IsSettled-total :
      IsSettled participants credited claimed total_credited total_claimed gross
      → total_claimed ≤ gross
  IsSettled-total v = omega (
    arith,
    sum-le (λ a. validator_deposit_wei * get claimed a) (λ a. gross * get credited a) participants
        v.within,
    sum-scale validator_deposit_wei (get claimed) participants,
    sum-scale gross (get credited) participants,
    v.claims,
    whole v.shares,
  )
    where
      whole :
          sum (get credited) participants ≡ validator_deposit_wei
          → gross * sum (get credited) participants ≡ gross * validator_deposit_wei
      whole h = rw h

  -- A larger claim within the share keeps the claims in order.
  pub IsSettled-set :
      (a n claims : ℕ)
      → IsSettled participants credited claimed total_credited total_claimed gross
      → mem a participants ≡ true
      → validator_deposit_wei * n ≤ gross * get credited a
      → claims + get claimed a ≡ total_claimed + n
      → IsSettled participants credited (set claimed a n) total_credited claims gross
  IsSettled-set a n claims v m within_share grown = record {
    distinct = v.distinct;
    shares = v.shares;
    all_shares = v.all_shares;
    claims = omega (arith, sum-set claimed a n participants v.distinct m, v.claims, grown);
    within = within;
    unlisted = v.unlisted;
  }
    where
      within :
          (b : ℕ)
          → mem b participants ≡ true
          → validator_deposit_wei * get (set claimed a n) b ≤ gross * get credited b
      within b k = elim (Bool-cases (a == b)) [
        | inl e ↦
            let same : a ≡ b = (==_iff a b).0 e in
            subst (λ x. validator_deposit_wei * get (set claimed a n) x ≤ gross * get credited x)
              same (rw (get-set_self claimed a n) within_share)
        | inr e ↦ rw (get-set_other claimed a n b e) (v.within b k)
      ]

-- The exact value of the proceeds, where they can be computed.
pub gross_pool_proceeds_sound :
    (p : Pool) (gross : ℕ) → gross_pool_proceeds p ≡ ok gross → gross ≡ gross_of p
unfolding gross_pool_proceeds
gross_pool_proceeds_sound p gross h = ground arith

-- What a claim may take.
pub record IsShare (p : Pool) (participant amount : ℕ) : Type 0 where
  pub credit : 0 < get p.credited_wei_of participant
  pub within :
      validator_deposit_wei * (get p.claimed_wei_of participant + amount)
      ≤ gross_of p * get p.credited_wei_of participant

share_within :
    (product claimed amount : ℕ)
    → 0 < amount
    → product / validator_deposit_wei - claimed ≡ amount
    → validator_deposit_wei * (claimed + amount) ≤ product
share_within product claimed amount pos h = omega arith

-- `claimable` is what the share of the proceeds leaves after the earlier claims.
pub claimable-IsShare :
    (p : Pool) (participant : ℕ)
    → p.total_credited_wei ≡ validator_deposit_wei
    → Ensures (λ amount. 0 < amount → IsShare p participant amount) (claimable p participant)
unfolding claimable gross_pool_proceeds
claimable-IsShare p participant whole =
    let credit = get p.credited_wei_of participant in
    elim (Bool-cases (is_stage p.state topped_up && not (credit == 0))) [
      | inr e ↦ rw (claimable, e) (returned (λ pos. omega arith))
      | inl e ↦
          rw (claimable, e, whole)
            (bind-Ensures (gross_pool_proceeds p) _ λ gross held.
              bind-Ensures (checked (gross * credit)) _ λ product all. returned (λ pos.
                let exact : product ≡ gross_of p * credit =
                  sym (checked_sound _ product all) ∙ cc (gross_pool_proceeds_sound p gross held) in
                record {
                  credit = ground arith;
                  within = omega (
                    arith,
                    share_within product (get p.claimed_wei_of participant) _ pos refl,
                    exact,
                  );
                }))
    ]

-- The pool after a claim of the sender.
pub claim : Pool → ℕ → (by_sender by_all balance : ℕ) → Pool
claim p sender by_sender by_all balance = record p {
  claimed_wei_of = set p.claimed_wei_of sender by_sender;
  total_claimed_wei = by_all;
  balance = balance;
}

module _ (c : PoolConfig) (p : Pool) (sender amount : ℕ) (v : ValidIn c p topped_up)
    (share : IsShare p sender amount) where
  pub IsShare-mem : mem sender p.participants ≡ true
  IsShare-mem = elim (Bool-cases (mem sender p.participants)) [
    | inl e ↦ e
    | inr e ↦ ground (arith, share.credit, v.in_stage.unlisted sender e)
  ]

  claim-IsSettled :
      IsSettled p.participants p.credited_wei_of
        (set p.claimed_wei_of sender (get p.claimed_wei_of sender + amount))
        p.total_credited_wei
        (p.total_claimed_wei + amount)
        (gross_of p)
  claim-IsSettled =
      IsSettled-set _ _ _ _ _ _ sender (get p.claimed_wei_of sender + amount)
        (p.total_claimed_wei + amount) v.in_stage IsShare-mem share.within (omega arith)

  -- A claim fits what the refunds leave of the balance.
  pub IsShare-covered : amount + p.total_refundable_wei ≤ p.balance
  IsShare-covered = omega (arith, IsSettled-total _ _ _ _ _ _ claim-IsSettled, v.covered)

  claim-ValidIn :
      ValidIn c
        (claim p sender
          (get p.claimed_wei_of sender + amount)
          (p.total_claimed_wei + amount)
          (p.balance - amount))
        topped_up
  unfolding claim
  claim-ValidIn = record {
    refundable = v.refundable;
    covered = omega (arith, IsShare-covered);
    submitted = v.submitted;
    in_stage =
        IsSettled-grow _ _ _ _ _ (gross_of p)
          (p.balance - amount + (p.total_claimed_wei + amount) - p.total_refundable_wei)
          (omega (arith, IsShare-covered)) claim-IsSettled;
  }

-- A claim keeps the invariant.
pub claim_to-Valid :
    (c : PoolConfig) (p : Pool) (sender recipient : ℕ) (taken : Bool)
    → Valid c p
    → Ensures (ValidOutcome c) (claim_to c p sender recipient taken)
unfolding claim_to claim
claim_to-Valid c p sender recipient taken v =
    bind-Ensures (guard (is_stage p.state topped_up) invalid_state) _ λ _ stage.
      let e : p.state ≡ topped_up = is_stage_iff p.state topped_up (ground arith) in
      let w = at_stage c p topped_up e v in
      bind-Ensures (validate_recipient c recipient) _ λ _ _.
        bind-Ensures (claimable p sender) _ λ amount due.
          bind-Ensures (refuse_if (amount == 0) nothing_to_claim) _ λ _ nonzero.
            bind-Ensures (checked (get p.claimed_wei_of sender + amount)) _ λ by_sender own.
              bind-Ensures (checked (p.total_claimed_wei + amount)) _ λ by_all all.
                let own_sum = checked_sound _ by_sender own in
                let all_sum = checked_sound _ by_all all in
                let sums_are : Path (ℕ × ℕ)
                    (get p.claimed_wei_of sender + amount, p.total_claimed_wei + amount)
                    (by_sender, by_all) =
                  cc in
                let share =
                  Ensures-sound (claimable-IsShare p sender w.in_stage.all_shares) amount due
                    (ground arith) in
                let written = claim p sender by_sender by_all p.balance in
                bind-Ensures (send_eth written amount taken) _ λ after sent.
                  let out = Ensures-sound (send_eth-Ensures written amount taken) after sent in
                  with_snapshot-Valid c after _ (
                    subst (Valid c) (sym out.1) (
                      subst (λ sums. Valid c (claim p sender sums.0 sums.1 (p.balance - amount)))
                        sums_are
                        (from_stage c _ topped_up e (claim-ValidIn c p sender amount w share))))
