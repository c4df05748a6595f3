-- ===== src/Pool/Invariant/Deposits.antt =====
-- The two deposits keep the invariant (contracts/ValidatorFundingPool.sol, `commitAndPredeposit`,
-- `topUpValidator`).
use validator_funding_pool.Base.{
  ℕ, ◌+◌, ◌-◌, ◌≤◌, ◌≡◌, refl, sym, ◌∙◌, Bool, true, false, ◌&&◌, List, [], ◌∷◌, arith, ltb, leb,
  ◌==◌, ==_iff, Bool-cases, inl, inr,
}
use mathlib.Core.Path.{subst}
use validator_funding_pool.Failure.{
  guard, refuse_if, invalid_state, not_operator, invalid_predeposit_value, funding_closed,
  funding_incomplete, funding_targets_do_not_match_validator, deposit_reverted, Ensures, returned,
  bind-Ensures, Ensures-sound, map-Ensures,
}
use validator_funding_pool.Pool.Map.{
  Balances, get, set, mem, IsDistinct, sum, get-set_self, get-set_other, sum-eq, sum-zero,
}
use validator_funding_pool.Pool.{
  validator_deposit_wei, predeposit_wei, top_up_wei, uninitialized, predeposited, funding,
  topped_up, PoolConfig, Pool, checked, is_stage, receive_value,
}
use validator_funding_pool.Pool.Lifecycle.{
  validate_validator_data, ValidatorData, commit, deposit, commit_and_predeposit, credit_targets,
  topped_up_with, top_up_validator,
}
use validator_funding_pool.Pool.Invariant.{
  IsSettled, Valid, ValidIn, ValidOutcome, with_snapshot-Valid, is_stage_iff, at_stage, from_stage,
}
use validator_funding_pool.Pool.Invariant.Attempt.{checked_sound}

-- A deposit takes its amount out of the balance, and nothing else changes.
pub record IsPaid (p : Pool) (amount : ℕ) (q : Pool) : Type 0 where
  pub enough : amount ≤ p.balance
  pub only_balance : q ≡ record p { balance = p.balance - amount }

pub deposit-IsPaid :
    (p : Pool) (amount : ℕ) (accepted : Bool)
    → Ensures (IsPaid p amount) (deposit p amount accepted)
deposit-IsPaid p amount accepted =
    bind-Ensures (guard (leb amount p.balance && accepted) deposit_reverted) _
      λ _ h. returned (record { enough = ground arith; only_balance = refl })

-- The predeposit leaves the balance as it was before the call.
pub commit_and_predeposit-Valid :
    (keccak256 : List ℕ → ℕ) (c : PoolConfig) (p : Pool) (sender value : ℕ) (d : ValidatorData)
    (accepted : Bool)
    → Valid c p
    → Ensures
        (ValidOutcome c)
        (commit_and_predeposit keccak256 c (receive_value p value) sender value d accepted)
unfolding commit_and_predeposit
commit_and_predeposit-Valid keccak256 c p sender value d accepted v =
    bind-Ensures (guard (sender == c.operator) not_operator) _ λ _ _.
      bind-Ensures (guard (is_stage p.state uninitialized) invalid_state) _ λ _ stage.
        let e : p.state ≡ uninitialized = is_stage_iff p.state uninitialized (ground arith) in
        let w = at_stage c p uninitialized e v in
        bind-Ensures (guard (value == predeposit_wei) invalid_predeposit_value) _ λ _ exact.
          bind-Ensures (validate_validator_data d.pubkey d.predeposit_signature d.predeposit_root) _
            λ _ _.
              bind-Ensures (validate_validator_data d.pubkey d.top_up_signature d.top_up_root) _
                λ _ _.
                  bind-Ensures (deposit (receive_value p value) predeposit_wei accepted) _
                    λ paid sent.
                      let out =
                        Ensures-sound
                          (deposit-IsPaid (receive_value p value) predeposit_wei accepted) paid
                          sent in
                      let amount : value ≡ predeposit_wei = ground arith in
                      let after = record (receive_value p value) {
                        balance = p.balance + value - predeposit_wei;
                      } in
                      with_snapshot-Valid c (commit keccak256 paid d) _ (
                        subst (λ q. Valid c (commit keccak256 q d)) (sym out.only_balance)
                          (from_stage c (commit keccak256 after d) predeposited refl (record {
                            refundable = w.refundable;
                            covered = omega (arith, w.covered, amount);
                            submitted = w.submitted;
                            in_stage = w.in_stage;
                          })))

-- What the loop of the top-up leaves: the participants have their targets for credits, and the total
-- has grown by them.
pub record IsCredited (targets credited : Balances) (total_before : ℕ) (listed : List ℕ)
    (r : Balances × ℕ) : Type 0 where
  pub own : (a : ℕ) → mem a listed ≡ true → get r.0 a ≡ get targets a
  pub others : (a : ℕ) → mem a listed ≡ false → get r.0 a ≡ get credited a
  pub all : r.1 ≡ total_before + sum (get targets) listed

-- One round before the others.
IsCredited-step :
    (targets credited : Balances) (total_before next a : ℕ) (rest : List ℕ) (r : Balances × ℕ)
    → mem a rest ≡ false
    → total_before + get targets a ≡ next
    → IsCredited targets (set credited a (get targets a)) next rest r
    → IsCredited targets credited total_before (a ∷ rest) r
IsCredited-step targets credited total_before next a rest r apart grown v = record {
  own = λ b m. elim (Bool-cases (b == a)) [
    | inl e ↦
        let same : b ≡ a = (==_iff b a).0 e in
        subst (λ x. get r.0 x ≡ get targets x) (sym same)
          (v.others a apart ∙ get-set_self credited a (get targets a))
    | inr e ↦ v.own b (ground arith)
  ];
  others =
      λ b m. v.others b (ground arith) ∙ get-set_other credited a (get targets a) b (ground arith);
  all = omega (arith, v.all, grown);
}

pub credit_targets-IsCredited :
    (targets credited : Balances) (total_before : ℕ) (listed : List ℕ)
    → IsDistinct listed
    → Ensures
        (IsCredited targets credited total_before listed)
        (credit_targets targets credited total_before listed)
unfolding credit_targets
credit_targets-IsCredited targets credited total_before [] d =
    returned (record { own = λ a m. cc; others = λ a m. refl; all = omega arith })
credit_targets-IsCredited targets credited total_before (a ∷ rest) d =
    bind-Ensures (checked (total_before + get targets a)) _ λ next grown.
      let more = checked_sound _ next grown in
      let h = credit_targets-IsCredited targets (set credited a (get targets a)) next rest d.1 in
      map-Ensures (λ r. IsCredited-step targets credited total_before next a rest r d.0 more) h

-- The credits of a topped-up pool make up a validator, and nobody has claimed.
credited-IsSettled :
    (c : PoolConfig) (p : Pool) (r : Balances × ℕ) (gross : ℕ)
    → ValidIn c p funding
    → IsCredited p.funding_target_wei_of p.credited_wei_of p.total_credited_wei p.participants r
    → r.1 ≡ validator_deposit_wei
    → IsSettled p.participants r.0 p.claimed_wei_of r.1 p.total_claimed_wei gross
credited-IsSettled c p r gross v made whole = record {
  distinct = v.in_stage.0.distinct;
  shares =
      sum-eq (get r.0) (get p.funding_target_wei_of) p.participants made.own
      ∙ v.in_stage.0.targeted;
  all_shares = whole;
  claims =
      sum-zero (get p.claimed_wei_of) p.participants (λ a m. v.in_stage.1.no_claim a)
      ∙ sym v.in_stage.1.no_claims;
  within = λ a m. rw (v.in_stage.1.no_claim a) (omega arith);
  unlisted = λ a m. made.others a m ∙ v.in_stage.1.no_credit a;
}

-- The top-up leaves the refunds covered.
pub top_up_validator-Valid :
    (c : PoolConfig) (p : Pool) (sender now : ℕ) (accepted : Bool)
    → Valid c p
    → Ensures (ValidOutcome c) (top_up_validator c p sender now accepted)
unfolding top_up_validator
top_up_validator-Valid c p sender now accepted v =
    bind-Ensures (guard (sender == c.operator) not_operator) _ λ _ _.
      bind-Ensures (guard (is_stage p.state funding) invalid_state) _ λ _ stage.
        let e : p.state ≡ funding = is_stage_iff p.state funding (ground arith) in
        let w = at_stage c p funding e v in
        bind-Ensures (refuse_if (ltb p.funding_deadline now) funding_closed) _ λ _ _.
          bind-Ensures (guard (p.total_active_funded_wei == top_up_wei) funding_incomplete) _ λ _ _.
            bind-Ensures (checked (top_up_wei + p.total_refundable_wei)) _ λ needed sum_of.
              bind-Ensures (refuse_if (ltb p.balance needed) funding_incomplete) _ λ _ held.
                bind-Ensures (refuse_if p.top_up_submitted invalid_state) _ λ _ _.
                  bind-Ensures
                    (credit_targets p.funding_target_wei_of p.credited_wei_of p.total_credited_wei
                      p.participants)
                    _
                    λ r looped.
                      bind-Ensures
                        (guard (r.1 == validator_deposit_wei)
                          funding_targets_do_not_match_validator)
                        _
                        λ _ whole. bind-Ensures (deposit p top_up_wei accepted) _ λ paid sent.
                          let made =
                            Ensures-sound
                              (credit_targets-IsCredited p.funding_target_wei_of p.credited_wei_of
                                p.total_credited_wei p.participants w.in_stage.0.distinct)
                              r looped in
                          let out =
                            Ensures-sound (deposit-IsPaid p top_up_wei accepted) paid sent in
                          let total_needed = checked_sound _ needed sum_of in
                          let enough : needed ≤ p.balance = ground arith in
                          let after = record p { balance = p.balance - top_up_wei } in
                          with_snapshot-Valid c (topped_up_with paid r.0 r.1) _ (
                            subst (λ q. Valid c (topped_up_with q r.0 r.1)) (sym out.only_balance)
                              (from_stage c (topped_up_with after r.0 r.1) topped_up refl (record {
                                refundable = w.refundable;
                                covered = omega (arith, total_needed, enough);
                                submitted = refl;
                                in_stage = credited-IsSettled c p r _ w made (ground arith);
                              })))
