-- ===== src/Pool/Proceeds.antt =====
-- Every participant gets the share of the proceeds (contracts/ValidatorFundingPool.sol, `claimable`,
-- `claimTo`).
use validator_funding_pool.Base.{
  ℕ, ◌+◌, ◌-◌, ◌*◌, ◌/◌, ◌≤◌, ◌<◌, ◌≡◌, refl, sym, ◌∙◌, true, false, if◌then◌else◌, [], ◌∷◌, arith,
  leb, ◌==◌, ==_iff, Bool-cases, inl, inr,
}
use mathlib.Core.Path.{subst}
use validator_funding_pool.Failure.{
  Result, ok, err, ◌>>=◌, refuse_if, nothing_to_claim, Ensures-sound,
}
use validator_funding_pool.Pool.Map.{
  Balances, get, set, mem, sum, get-set_self, get-set_other, sum-le, sum-add, sum-scale, get-le-sum,
}
use validator_funding_pool.Pool.{
  uint256_max, validator_deposit_wei, topped_up, PoolConfig, Pool, claimed, checked, is_stage,
  gross_pool_proceeds, claimable, validate_recipient,
}
use validator_funding_pool.Pool.Payout.{claim_to}
use validator_funding_pool.Pool.Arith.{
  checked-ok, snapshot, with_snapshot-ok, gross_pool_proceeds-ok,
}
use validator_funding_pool.Pool.Refunds.{is_recipient}
use validator_funding_pool.Pool.Invariant.{gross_of, Valid, ValidIn, at_stage}
use validator_funding_pool.Pool.Invariant.Claims.{claimable-IsShare, IsShare-mem, IsShare-covered}

-- What is claimable and what was claimed are together within the share.
share_of_all :
    (c : PoolConfig) (p : Pool) (v : ValidIn c p topped_up) (a due : ℕ)
    → mem a p.participants ≡ true
    → claimable p a ≡ ok due
    → validator_deposit_wei * (get p.claimed_wei_of a + due) ≤ gross_of p * get p.credited_wei_of a
share_of_all c p v a due m h = elim (Bool-cases (due == 0)) [
  | inl e ↦ let none : due ≡ 0 = (==_iff due 0).0 e in omega (arith, v.in_stage.within a m, none)
  | inr e ↦
      (Ensures-sound (claimable-IsShare p a v.in_stage.all_shares) due h (ground arith)).within
]

-- Once a valid pool is topped up, all that the participants can claim and all the refunds are
-- together within the balance, so that everybody can be paid.
pub claimable-covered :
    (c : PoolConfig) (p : Pool) (due : ℕ → ℕ)
    → Valid c p
    → p.state ≡ topped_up
    → ((a : ℕ) → mem a p.participants ≡ true → claimable p a ≡ ok (due a))
    → sum due p.participants + p.total_refundable_wei ≤ p.balance
claimable-covered c p due v stage each =
    let w = at_stage c p topped_up stage v in
    let f : ℕ → ℕ = λ a. get p.claimed_wei_of a + due a in
    omega (
      arith,
      sum-le (λ a. validator_deposit_wei * f a) (λ a. gross_of p * get p.credited_wei_of a)
          p.participants (λ a m. share_of_all c p w a (due a) m (each a m)),
      sum-scale validator_deposit_wei f p.participants,
      sum-scale (gross_of p) (get p.credited_wei_of) p.participants,
      sum-add (get p.claimed_wei_of) due p.participants,
      w.in_stage.claims,
      whole w.in_stage.shares,
      w.covered,
    )
  where
    whole :
        sum (get p.credited_wei_of) p.participants ≡ validator_deposit_wei
        → gross_of p * sum (get p.credited_wei_of) p.participants
          ≡ gross_of p * validator_deposit_wei
    whole h = rw h

-- The pool after the sender's claim of `amount`.
abbrev pub after_claim : Pool → (sender amount : ℕ) → Pool
after_claim p sender amount = record p {
  claimed_wei_of = set p.claimed_wei_of sender (get p.claimed_wei_of sender + amount);
  total_claimed_wei = p.total_claimed_wei + amount;
  balance = p.balance - amount;
}

-- In a valid pool that is topped up, a sender who can claim a positive amount is paid exactly that
-- amount, to any recipient but the zero address and the pool, if the recipient takes it and the
-- balance and the earlier claims together fit 256 bits.
pub claim_to-pays :
    (c : PoolConfig) (p : Pool) (sender recipient amount : ℕ)
    → Valid c p
    → p.state ≡ topped_up
    → claimable p sender ≡ ok amount
    → 0 < amount
    → is_recipient c recipient ≡ true
    → p.balance + p.total_claimed_wei ≤ uint256_max
    → claim_to c p sender recipient true
      ≡ ok (
        after_claim p sender amount,
        claimed sender recipient amount ∷ snapshot (after_claim p sender amount) ∷ [],
      )
unfolding claim_to
claim_to-pays c p sender recipient amount v stage due pos good small =
    let w = at_stage c p topped_up stage v in
    let share = Ensures-sound (claimable-IsShare p sender w.in_stage.all_shares) amount due pos in
    let held = IsShare-covered c p sender amount w share in
    let earlier : get p.claimed_wei_of sender ≤ p.total_claimed_wei = omega (
      arith,
      get-le-sum (get p.claimed_wei_of) sender p.participants
          (IsShare-mem c p sender amount w share),
      w.in_stage.claims,
    ) in
    let e0 : is_stage p.state topped_up ≡ true = rw stage refl in
    let e1 : validate_recipient c recipient ≡ ok tt = ground arith in
    let e2 : refuse_if (amount == 0) nothing_to_claim ≡ ok tt = ground arith in
    let e3 : leb amount p.balance ≡ true = ground arith in
    rw
      (
        e0,
        e1,
        due,
        e2,
        checked-ok (get p.claimed_wei_of sender + amount) (omega arith),
        checked-ok (p.total_claimed_wei + amount) (omega arith),
        e3,
        with_snapshot-ok (after_claim p sender amount) (claimed sender recipient amount ∷ [])
            (omega arith) (omega arith),
      )
      refl

-- The share of proceeds that are known, the earlier claims included.
entitled : (credited : Balances) (total_credited gross : ℕ) → ℕ → Result ℕ
entitled credited total_credited gross a = elim (get credited a == 0) [
  | true ↦ ok 0
  | false ↦ checked (gross * get credited a) >>= λ product. ok (product / total_credited)
]

claimable-entitled :
    (p : Pool) (gross a : ℕ)
    → p.state ≡ topped_up
    → gross_pool_proceeds p ≡ ok gross
    → claimable p a ≡ (
        entitled p.credited_wei_of p.total_credited_wei gross a >>= λ share.
        ok (share - get p.claimed_wei_of a))
unfolding claimable entitled
claimable-entitled p gross a stage held =
    let e : is_stage p.state topped_up ≡ true = rw stage refl in
    elim (Bool-cases (get p.credited_wei_of a == 0)) [
      | inl z ↦ rw (claimable, entitled, e, z) (ground arith)
      | inr z ↦ rw (claimable, entitled, e, z, held) (ground arith)
    ]

-- After a claim of what was left of a share nothing is left of it.
spent_share :
    (r : Result ℕ) (earlier amount : ℕ)
    → (r >>= λ share. ok (share - earlier)) ≡ ok amount
    → (r >>= λ share. ok (share - (earlier + amount))) ≡ ok 0
spent_share (ok share) earlier amount h = ground arith
spent_share (err e) earlier amount h = cc

-- After a claim of all that the sender can claim, the sender can claim nothing and everybody else
-- can claim what they could before, in a valid pool that is topped up and whose balance and claims
-- fit 256 bits.
pub after_claim-claimable :
    (c : PoolConfig) (p : Pool) (sender amount other : ℕ)
    → Valid c p
    → p.state ≡ topped_up
    → claimable p sender ≡ ok amount
    → 0 < amount
    → p.balance + p.total_claimed_wei ≤ uint256_max
    → claimable (after_claim p sender amount) other
      ≡ (if sender == other then ok 0 else claimable p other)
after_claim-claimable c p sender amount other v stage due pos small =
    let w = at_stage c p topped_up stage v in
    let share = Ensures-sound (claimable-IsShare p sender w.in_stage.all_shares) amount due pos in
    let q = after_claim p sender amount in
    let covered = IsShare-covered c p sender amount w share in
    let same : gross_of q ≡ gross_of p = omega arith in
    let held : gross_pool_proceeds q ≡ ok (gross_of p) =
      gross_pool_proceeds-ok q (omega arith) (omega arith) ∙ (cc) in
    let before : (a : ℕ)
        → claimable p a ≡ (
            entitled p.credited_wei_of p.total_credited_wei (gross_of p) a >>= λ share.
            ok (share - get p.claimed_wei_of a)) =
      λ a. claimable-entitled p (gross_of p) a stage (gross_pool_proceeds-ok p small w.covered) in
    let after = claimable-entitled q (gross_of p) other stage held in
    elim (Bool-cases (sender == other)) [
      | inl e ↦
          let spent =
            spent_share (entitled p.credited_wei_of p.total_credited_wei (gross_of p) sender)
              (get p.claimed_wei_of sender) amount (sym (before sender) ∙ due) in
          rw e (
            subst (λ a. claimable q a ≡ ok 0) ((==_iff sender other).0 e)
              (claimable-entitled q (gross_of p) sender stage held
                ∙ rw (get-set_self p.claimed_wei_of sender (get p.claimed_wei_of sender + amount))
                    spent))
      | inr e ↦ rw e (
          after
          ∙ rw
              (get-set_other p.claimed_wei_of sender (get p.claimed_wei_of sender + amount) other e)
              (sym (before other)))
    ]
