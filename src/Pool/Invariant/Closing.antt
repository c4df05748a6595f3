-- ===== src/Pool/Invariant/Closing.antt =====
-- Closing an expired attempt turns what was funded into refunds (contracts/ValidatorFundingPool.sol,
-- `closeExpiredFundingAttempt`).
use validator_funding_pool.Base.{
  ℕ, ◌+◌, ◌≡◌, refl, ◌∙◌, false, List, [], ◌∷◌, arith, leb, ◌==◌, ==_iff, Bool-cases, inl, inr,
}
use validator_funding_pool.Failure.{
  guard, refuse_if, invalid_state, funding_still_open, Ensures, returned, bind-Ensures,
  Ensures-sound,
}
use validator_funding_pool.Pool.Map.{
  Balances, get, set, total, mem, IsDistinct, sum, get-set_self, get-set_other, total-set,
  sum-set_absent,
}
use validator_funding_pool.Pool.{predeposited, funding, PoolConfig, Pool, checked, is_stage}
use validator_funding_pool.Pool.Lifecycle.{
  Closing, credit_refund, clear_participant, close_participant, close_participants, closing_of,
  closed_with, close_expired_funding_attempt,
}
use validator_funding_pool.Pool.Invariant.{
  Valid, ValidIn, ValidOutcome, with_snapshot-Valid, is_stage_iff, at_stage, from_stage,
}
use validator_funding_pool.Pool.Invariant.Attempt.{checked_sound}

-- What holds between two rounds: `listed` still have an index, `funded` an active amount, and what the
-- participants are owed is `claims`.
pub record IsClosing (claims : ℕ) (z : Closing) (listed funded : List ℕ) : Type 0 where
  pub distinct : IsDistinct listed
  pub refundable : total z.refundable ≡ z.total_refundable
  pub kept : z.total_refundable + sum (get z.active) funded ≡ claims
  pub no_index : (a : ℕ) → mem a listed ≡ false → get z.index a ≡ 0
  pub no_target : (a : ℕ) → mem a listed ≡ false → get z.targets a ≡ 0
  pub no_active : (a : ℕ) → mem a funded ≡ false → get z.active a ≡ 0

-- An entry that is reset is 0 outside the rest of the list.
reset_outside :
    (m : Balances) (a b : ℕ) (others : List ℕ)
    → ((x : ℕ) → mem x (a ∷ others) ≡ false → get m x ≡ 0)
    → mem b others ≡ false
    → get (set m a 0) b ≡ 0
reset_outside m a b others h absent = elim (Bool-cases (a == b)) [
  | inl e ↦ let same : a ≡ b = (==_iff a b).0 e in cc (get-set_self m a 0)
  | inr e ↦ get-set_other m a 0 b e ∙ h b (ground arith)
]

module _ (claims attempt : ℕ) (z : Closing) (a : ℕ) (others : List ℕ) where
  credit_refund-IsClosing :
      IsClosing claims z (a ∷ others) (a ∷ others)
      → Ensures
          (λ w. IsClosing claims w (a ∷ others) others)
          (credit_refund attempt z a (get z.active a))
  credit_refund-IsClosing v =
      bind-Ensures (checked (get z.refundable a + get z.active a)) _ λ owed own.
        bind-Ensures (checked (z.total_refundable + get z.active a)) _ λ outstanding all.
          let own_sum = checked_sound _ owed own in
          let all_sum = checked_sound _ outstanding all in
          returned (record {
            distinct = v.distinct;
            refundable =
                omega (arith, total-set z.refundable a owed, own_sum, all_sum, v.refundable);
            kept = omega (arith, sum-set_absent z.active a 0 others v.distinct.0, all_sum, v.kept);
            no_index = v.no_index;
            no_target = v.no_target;
            no_active = λ b absent. reset_outside z.active a b others v.no_active absent;
          })

  -- Nothing is moved where nothing was funded.
  unfunded-IsClosing :
      get z.active a ≡ 0
      → IsClosing claims z (a ∷ others) (a ∷ others)
      → IsClosing claims z (a ∷ others) others
  unfunded-IsClosing none v = record {
    distinct = v.distinct;
    refundable = v.refundable;
    kept = omega (arith, none, v.kept);
    no_index = v.no_index;
    no_target = v.no_target;
    no_active = λ b absent. elim (Bool-cases (b == a)) [
      | inl e ↦ let same : b ≡ a = (==_iff b a).0 e in cc
      | inr e ↦ v.no_active b (ground arith)
    ];
  }

  clear_participant-IsClosing :
      (w : Closing)
      → IsClosing claims w (a ∷ others) others
      → IsClosing claims (clear_participant w a) others others
  clear_participant-IsClosing w v = record {
    distinct = v.distinct.1;
    refundable = v.refundable;
    kept = v.kept;
    no_index = λ b absent. reset_outside w.index a b others v.no_index absent;
    no_target = λ b absent. reset_outside w.targets a b others v.no_target absent;
    no_active = v.no_active;
  }

  pub close_participant-IsClosing :
      IsClosing claims z (a ∷ others) (a ∷ others)
      → Ensures (λ w. IsClosing claims w others others) (close_participant attempt z a)
  unfolding close_participant
  close_participant-IsClosing v = elim (Bool-cases (get z.active a == 0)) [
    | inl e ↦ rw e (
        returned
          (clear_participant-IsClosing z (unfunded-IsClosing ((==_iff (get z.active a) 0).0 e) v)))
    | inr e ↦ rw e (
        bind-Ensures (credit_refund attempt z a (get z.active a)) _ λ w credited.
          returned
            (clear_participant-IsClosing w (Ensures-sound (credit_refund-IsClosing v) w credited)))
  ]

close_participants-IsClosing :
    (claims attempt : ℕ) (z : Closing) (listed : List ℕ)
    → IsClosing claims z listed listed
    → Ensures (λ w. IsClosing claims w [] []) (close_participants attempt z listed)
unfolding close_participants
close_participants-IsClosing claims attempt z [] v = returned v
close_participants-IsClosing claims attempt z (a ∷ others) v =
    bind-Ensures (close_participant attempt z a) _ λ next closed.
      close_participants-IsClosing claims attempt next others
        (Ensures-sound (close_participant-IsClosing claims attempt z a others v) next closed)

pub closing_of-IsClosing :
    (c : PoolConfig) (p : Pool)
    → ValidIn c p funding
    → IsClosing
        (p.total_refundable_wei + p.total_active_funded_wei)
        (closing_of p)
        p.participants
        p.participants
closing_of-IsClosing c p v = record {
  distinct = v.in_stage.0.distinct;
  refundable = v.refundable;
  kept = omega (arith, v.in_stage.0.funded);
  no_index = λ a absent. let unlisted = v.in_stage.0.listed a in ground arith;
  no_target = v.in_stage.0.untargeted;
  no_active = v.in_stage.0.unlisted;
}

-- Closing an attempt keeps the invariant.
pub close_expired_funding_attempt-Valid :
    (c : PoolConfig) (p : Pool) (now : ℕ)
    → Valid c p
    → Ensures (ValidOutcome c) (close_expired_funding_attempt p now)
unfolding close_expired_funding_attempt
close_expired_funding_attempt-Valid c p now v =
    bind-Ensures (guard (is_stage p.state funding) invalid_state) _ λ _ stage.
      let e : p.state ≡ funding = is_stage_iff p.state funding (ground arith) in
      let w = at_stage c p funding e v in
      bind-Ensures (refuse_if (leb now p.funding_deadline) funding_still_open) _ λ _ _.
        bind-Ensures (close_participants p.funding_attempt (closing_of p) p.participants) _
          λ z looped.
            let done =
              Ensures-sound
                (close_participants-IsClosing _ p.funding_attempt (closing_of p) p.participants
                  (closing_of-IsClosing c p w))
                z looped in
            with_snapshot-Valid c (closed_with p z) _ (
              from_stage c (closed_with p z) predeposited refl (record {
                refundable = done.refundable;
                covered = omega (arith, w.covered, done.kept);
                submitted = w.submitted;
                in_stage = (
                  record {
                    nobody = refl;
                    no_index = λ a. done.no_index a refl;
                    no_target = λ a. done.no_target a refl;
                    no_active = λ a. done.no_active a refl;
                    no_total = refl;
                  },
                  w.in_stage.1,
                );
              }))
