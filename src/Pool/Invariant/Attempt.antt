-- ===== src/Pool/Invariant/Attempt.antt =====
-- Funding keeps the invariant (contracts/ValidatorFundingPool.sol, `_fund`).
use validator_funding_pool.Base.{
  ℕ, ◌+◌, ◌≤◌, ◌<◌, ◌≡◌, sym, ◌∙◌, true, false, List, arith, ltb, ◌==◌, ==_iff, Bool-cases, inl,
  inr,
}
use mathlib.Core.Path.{subst}
use validator_funding_pool.Failure.{
  ok, guard, refuse_if, invalid_state, funding_closed, not_participant, zero_amount,
  funding_cap_exceeded, Ensures, bind-Ensures,
}
use validator_funding_pool.Pool.Map.{Balances, get, set, mem, get-set_self, get-set_other, sum-set}
use validator_funding_pool.Pool.{
  funding, PoolConfig, Pool, checked, is_stage, is_participant, funding_remaining_wei_of,
  receive_value,
}
use validator_funding_pool.Pool.Payout.{fund}
use validator_funding_pool.Pool.Invariant.{
  reserve, IsOpen, Valid, ValidOutcome, with_snapshot-Valid, is_stage_iff, at_stage, from_stage,
}

pub checked_sound : (n m : ℕ) → checked n ≡ ok m → n ≡ m
checked_sound n m h = ground arith

-- An amount that fits what remains keeps the participant within the target.
remaining_sound :
    (c : PoolConfig) (p : Pool) (a r value : ℕ)
    → funding_remaining_wei_of c p a ≡ ok r
    → value ≤ r
    → 0 < value
    → get p.active_funded_wei_of a + value + reserve c a ≤ get p.funding_target_wei_of a
unfolding funding_remaining_wei_of
remaining_sound c p a r value h le pos = ground arith

module _ (c : PoolConfig) (participants : List ℕ) (index targets active : Balances)
    (total_active : ℕ) where
  -- A funding within the cap keeps an attempt in order.
  IsOpen-set :
      (a value : ℕ)
      → IsOpen c participants index targets active total_active
      → mem a participants ≡ true
      → get active a + value + reserve c a ≤ get targets a
      → IsOpen c participants index targets
          (set active a (get active a + value))
          (total_active + value)
  IsOpen-set a value o m room = record {
    distinct = o.distinct;
    listed = o.listed;
    targeted = o.targeted;
    operator_listed = o.operator_listed;
    capped = capped;
    funded =
        omega (arith, sum-set active a (get active a + value) participants o.distinct m, o.funded);
    unlisted = unlisted;
    untargeted = o.untargeted;
  }
    where
      capped :
          (b : ℕ)
          → mem b participants ≡ true
          → get (set active a (get active a + value)) b + reserve c b ≤ get targets b
      capped b k = elim (Bool-cases (a == b)) [
        | inl e ↦
            let same : a ≡ b = (==_iff a b).0 e in
            subst (λ x. get (set active a (get active a + value)) x + reserve c x ≤ get targets x)
              same (rw (get-set_self active a (get active a + value)) room)
        | inr e ↦ rw (get-set_other active a (get active a + value) b e) (o.capped b k)
      ]

      unlisted :
          (b : ℕ) → mem b participants ≡ false → get (set active a (get active a + value)) b ≡ 0
      unlisted b k = elim (Bool-cases (a == b)) [
        | inl e ↦ let same : a ≡ b = (==_iff a b).0 e in cc
        | inr e ↦ get-set_other active a (get active a + value) b e ∙ o.unlisted b k
      ]

-- Funding keeps the invariant.
pub fund-Valid :
    (c : PoolConfig) (p : Pool) (sender value now : ℕ)
    → Valid c p
    → Ensures (ValidOutcome c) (fund c (receive_value p value) sender value now)
unfolding fund
fund-Valid c p sender value now v =
    bind-Ensures (guard (is_stage p.state funding) invalid_state) _ λ _ stage.
      bind-Ensures (refuse_if (ltb p.funding_deadline now) funding_closed) _ λ _ _.
        bind-Ensures (guard (is_participant p sender) not_participant) _ λ _ listed.
          bind-Ensures (refuse_if (value == 0) zero_amount) _ λ _ nonzero.
            bind-Ensures (funding_remaining_wei_of c (receive_value p value) sender) _
              λ r remaining. bind-Ensures (refuse_if (ltb r value) funding_cap_exceeded) _ λ _ fits.
                bind-Ensures (checked (get p.active_funded_wei_of sender + value)) _
                  λ new_funded own.
                    bind-Ensures (checked (p.total_active_funded_wei + value)) _ λ new_total all.
                      let e : p.state ≡ funding = is_stage_iff p.state funding (ground arith) in
                      let w = at_stage c p funding e v in
                      let room =
                        remaining_sound c (receive_value p value) sender r value remaining
                          (ground arith) (ground arith) in
                      let member : mem sender p.participants ≡ true =
                        sym (w.in_stage.0.listed sender) ∙ (ground arith) in
                      let own_sum = checked_sound _ new_funded own in
                      let all_sum = checked_sound _ new_total all in
                      let attempt = IsOpen-set c _ _ _ _ _ sender value w.in_stage.0 member room in
                      with_snapshot-Valid c _ _ (
                        from_stage c _ funding e (record {
                          refundable = w.refundable;
                          covered = omega (arith, w.covered, all_sum);
                          submitted = w.submitted;
                          in_stage = (
                            subst
                                (λ n.
                                  IsOpen c p.participants p.participant_index_plus_one
                                    p.funding_target_wei_of (set p.active_funded_wei_of sender n)
                                    new_total)
                                own_sum
                                (subst
                                  (λ n.
                                    IsOpen c p.participants p.participant_index_plus_one
                                      p.funding_target_wei_of
                                      (set p.active_funded_wei_of sender
                                        (get p.active_funded_wei_of sender + value))
                                      n)
                                  all_sum attempt),
                            w.in_stage.1,
                          );
                        }))
