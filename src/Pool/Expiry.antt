-- ===== src/Pool/Expiry.antt =====
-- An expired attempt can be closed, and nobody loses by it (contracts/ValidatorFundingPool.sol,
-- `closeExpiredFundingAttempt`).
use validator_funding_pool.Base.{
  ℕ, ◌+◌, ◌≤◌, ◌<◌, ◌≡◌, refl, ◌∙◌, true, false, List, [], ◌∷◌, ◌++◌, arith, leb, ◌==◌, ==_iff,
  Bool-cases, inl, inr,
}
use mathlib.Core.Path.{subst}
use validator_funding_pool.Failure.{
  Ensures, returned, bind-Ensures, Ensures-sound, map-Ensures, Succeeds, succeeded, Succeeds-with,
  bind-Succeeds,
}
use validator_funding_pool.Pool.Map.{Balances, get, set, get-le-total, get-set_self, get-set_other}
use validator_funding_pool.Pool.{
  uint256_max, predeposited, funding, PoolConfig, Pool, funding_attempt_closed, checked, is_stage,
}
use validator_funding_pool.Pool.Lifecycle.{
  Closing, credit_refund, close_participant, close_participants, closing_of, closed_with,
  close_expired_funding_attempt,
}
use validator_funding_pool.Pool.Arith.{checked-ok, with_snapshot-ok}
use validator_funding_pool.Pool.Invariant.{Valid, at_stage}
use validator_funding_pool.Pool.Invariant.Attempt.{checked_sound}
use validator_funding_pool.Pool.Invariant.Closing.{
  IsClosing, close_participant-IsClosing, closing_of-IsClosing,
}

-- What an account is owed, as an amount in the open attempt or as a refund.
pub claim_of : (active refundable : Balances) → ℕ → ℕ
claim_of active refundable a = get active a + get refundable a

-- The same accounts are owed the same.
abbrev pub SameClaims : (active refundable active_after refundable_after : Balances) → Type 0
SameClaims active refundable active_after refundable_after =
    (a : ℕ) → claim_of active_after refundable_after a ≡ claim_of active refundable a

abbrev pub KeepsClaims : Closing → Closing → Type 0
KeepsClaims z w = SameClaims z.active z.refundable w.active w.refundable

credit_refund-KeepsClaims :
    (attempt : ℕ) (z : Closing) (a : ℕ)
    → Ensures (KeepsClaims z) (credit_refund attempt z a (get z.active a))
unfolding claim_of
credit_refund-KeepsClaims attempt z a =
    bind-Ensures (checked (get z.refundable a + get z.active a)) _ λ owed own.
      bind-Ensures (checked (z.total_refundable + get z.active a)) _ λ outstanding _. returned (λ b.
        elim (Bool-cases (a == b)) [
          | inl e ↦
              subst
                (λ x.
                  get (set z.active a 0) x + get (set z.refundable a owed) x
                  ≡ get z.active x + get z.refundable x)
                ((==_iff a b).0 e)
                (omega (
                  arith,
                  get-set_self z.active a 0,
                  get-set_self z.refundable a owed,
                  checked_sound _ owed own,
                ))
          | inr e ↦
              omega (arith, get-set_other z.active a 0 b e, get-set_other z.refundable a owed b e)
        ])

close_participant-KeepsClaims :
    (attempt : ℕ) (z : Closing) (a : ℕ) → Ensures (KeepsClaims z) (close_participant attempt z a)
unfolding close_participant
close_participant-KeepsClaims attempt z a = elim (Bool-cases (get z.active a == 0)) [
  | inl e ↦ rw (close_participant, e) (returned (λ b. refl))
  | inr e ↦
      rw (close_participant, e)
        (bind-Ensures (credit_refund attempt z a (get z.active a)) _
          λ w credited. returned (Ensures-sound (credit_refund-KeepsClaims attempt z a) w credited))
]

close_participants-KeepsClaims :
    (attempt : ℕ) (z : Closing) (listed : List ℕ)
    → Ensures (KeepsClaims z) (close_participants attempt z listed)
unfolding close_participants
close_participants-KeepsClaims attempt z [] = returned (λ b. refl)
close_participants-KeepsClaims attempt z (a ∷ others) =
    bind-Ensures (close_participant attempt z a) _ λ next closed.
      map-Ensures
        (λ w after b.
          after b ∙ Ensures-sound (close_participant-KeepsClaims attempt z a) next closed b)
        (close_participants-KeepsClaims attempt next others)

module _ (claims attempt : ℕ) (small : claims ≤ uint256_max) where
  close_participant-Succeeds :
      (z : Closing) (a : ℕ) (others : List ℕ)
      → IsClosing claims z (a ∷ others) (a ∷ others)
      → Succeeds (λ w. Unit {0}) (close_participant attempt z a)
  unfolding close_participant
  close_participant-Succeeds z a others v = elim (Bool-cases (get z.active a == 0)) [
    | inl e ↦ rw (close_participant, e) (succeeded tt)
    | inr e ↦
        rw
          (
            close_participant,
            e,
            checked-ok (get z.refundable a + get z.active a)
                (omega (arith, get-le-total z.refundable a, v.refundable, v.kept)),
            checked-ok (z.total_refundable + get z.active a) (omega (arith, v.kept)),
          )
          (succeeded tt)
  ]

  close_participants-Succeeds :
      (z : Closing) (listed : List ℕ)
      → IsClosing claims z listed listed
      → Succeeds (λ w. IsClosing claims w [] []) (close_participants attempt z listed)
  unfolding close_participants
  close_participants-Succeeds z [] v = succeeded v
  close_participants-Succeeds z (a ∷ others) v =
      bind-Succeeds (close_participant attempt z a) _
        (Succeeds-with (close_participant-Succeeds z a others v)
          (close_participant-IsClosing claims attempt z a others v))
        λ next closed after. close_participants-Succeeds next others after.1

-- The attempt is over, and each account is owed in refunds what it was owed before.
pub record IsClosed (p q : Pool) : Type 0 where
  same_claims :
      SameClaims p.active_funded_wei_of p.refundable_wei_of q.active_funded_wei_of
        q.refundable_wei_of
  all_refundable : (a : ℕ) → get q.active_funded_wei_of a ≡ 0
  stage : q.state ≡ predeposited
  same_balance : q.balance ≡ p.balance

-- After the deadline of an open attempt of a valid pool anybody can close it, if the balance fits
-- 256 bits: no amount stays in the attempt, and each account is owed in refunds what it was owed
-- before in the attempt and in refunds.
pub close_expired_funding_attempt-Succeeds :
    (c : PoolConfig) (p : Pool) (now : ℕ)
    → Valid c p
    → p.state ≡ funding
    → p.funding_deadline < now
    → p.balance ≤ uint256_max
    → Succeeds (λ o. IsClosed p o.0) (close_expired_funding_attempt p now)
unfolding close_expired_funding_attempt
close_expired_funding_attempt-Succeeds c p now v stage late small =
    let w = at_stage c p funding stage v in
    let e : is_stage p.state funding ≡ true = rw stage refl in
    let passed : leb now p.funding_deadline ≡ false = ground arith in
    let claims = p.total_refundable_wei + p.total_active_funded_wei in
    rw (close_expired_funding_attempt, e, passed)
      (bind-Succeeds (close_participants p.funding_attempt (closing_of p) p.participants) _
        (close_participants-Succeeds claims p.funding_attempt (omega (arith, w.covered))
          (closing_of p) p.participants (closing_of-IsClosing c p w))
        λ z looped done.
          rw
            (with_snapshot-ok (closed_with p z)
              (z.events ++ (funding_attempt_closed p.funding_attempt ∷ []))
              (omega (arith, w.in_stage.1.no_claims)) (omega (arith, done.kept, w.covered)))
            (succeeded (record {
              same_claims =
                  Ensures-sound
                    (close_participants-KeepsClaims p.funding_attempt (closing_of p) p.participants)
                    z looped;
              all_refundable = λ a. done.no_active a refl;
              stage = refl;
              same_balance = refl;
            })))
