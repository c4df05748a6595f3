-- ===== src/FundCommand/Review.antt =====
-- The funding review of the `fund` command shows the targets that the pool will hold the caller and
-- the operator to (scripts/fund.ts, `printAndCheckFundingReview`).
use validator_funding_pool.Base.{
  ℕ, ◌≡◌, refl, sym, ◌∙◌, true, false, List, [], ◌∷◌, arith, ◌==◌, ==_iff, Bool-cases, inl, inr,
  if◌then◌else◌, map,
}
use validator_funding_pool.Decimal.{Text}
use validator_funding_pool.Text.{same_hex}
use validator_funding_pool.Pins.{pinned_values}
use validator_funding_pool.Pool.Map.{Balances, get, mem}
use validator_funding_pool.Pool.{PoolConfig, Pool, funding}
use validator_funding_pool.Pool.Invariant.{Valid, at_stage}
use validator_funding_pool.FundCommand.{ListedTarget, review_targets, reviewed_values}
use validator_funding_pool.FundCommand.Views.{reviewed_pool, funding_state}

-- Two addresses are written alike, up to case, exactly when they are the same.
abbrev pub TellsApart : (ℕ → Text) → Type 0
TellsApart text = (a b : ℕ) → same_hex (text a) (text b) ≡ (a == b)

abbrev listed_targets : (text : ℕ → Text) → Balances → List ℕ → List ListedTarget
listed_targets text targets = map (λ a. record { participant = text a; target = get targets a })

module _ (text : ℕ → Text) (apart : TellsApart text) (targets : Balances)
    (caller operator : ℕ) where
  -- One round for one of the two accounts, and the rounds after it.
  round_lem :
      (who a found : ℕ) (others : List ℕ)
      → (if mem who others
          then get targets who
          else if same_hex (text a) (text who)
          then get targets a
          else found)
        ≡ (if mem who (a ∷ others) then get targets who else found)
  round_lem who a found others = elim (Bool-cases (a == who)) [
    | inl e ↦
        let same : a ≡ who = (==_iff a who).0 e in
        let back : (who == a) ≡ true = (==_iff who a).1 (sym same) in
        rw (apart a who, e, back) (ground (arith, same))
    | inr e ↦ let back : (who == a) ≡ false = ground arith in rw (apart a who, e, back) refl
  ]

  review_targets_lem :
      (participants : List ℕ) (own the_operator's : ℕ)
      → review_targets
          (text caller)
          (text operator)
          (own, the_operator's)
          (listed_targets text targets participants)
        ≡ (
          if mem caller participants then get targets caller else own,
          if mem operator participants then get targets operator else the_operator's,
        )
  unfolding review_targets
  review_targets_lem [] own the_operator's = refl
  review_targets_lem (a ∷ others) own the_operator's = review_targets_lem others _ _ ∙ λ i.
      (round_lem caller a own others i, round_lem operator a the_operator's others i)

-- The values that the funding review finds in its scan of the participants are those that the final
-- re-read asks the pool for, if addresses are written apart and the valid pool has an open attempt
-- and has not changed.
pub reviewed_values-pinned_values :
    (text : ℕ → Text) (c : PoolConfig) (p : Pool) (caller remaining timestamp : ℕ)
    → TellsApart text
    → Valid c p
    → p.state ≡ funding
    → reviewed_values (text caller) (reviewed_pool text c p)
      ≡ pinned_values (funding_state text c p caller remaining timestamp)
reviewed_values-pinned_values text c p caller remaining timestamp apart v stage =
    let w = at_stage c p funding stage v in
    let scan =
      review_targets_lem text apart p.funding_target_wei_of caller c.operator p.participants 0 0 in
    let own = listed_or_none caller (w.in_stage.0.untargeted caller) in
    let the_operator's = listed_or_none c.operator (w.in_stage.0.untargeted c.operator) in
    let found : review_targets (text caller) (text c.operator) (0, 0)
          (listed_targets text p.funding_target_wei_of p.participants)
        ≡ (get p.funding_target_wei_of caller, get p.funding_target_wei_of c.operator) =
      scan ∙ λ i. (own i, the_operator's i) in
    λ i. record {
      funding_attempt = p.funding_attempt;
      funding_deadline = p.funding_deadline;
      caller_target_wei = (found i).0;
      operator_target_wei = (found i).1;
    }
  where
    listed_or_none :
        (a : ℕ)
        → (mem a p.participants ≡ false → get p.funding_target_wei_of a ≡ 0)
        → (if mem a p.participants then get p.funding_target_wei_of a else 0)
          ≡ get p.funding_target_wei_of a
    listed_or_none a h = elim (Bool-cases (mem a p.participants)) [
      | inl e ↦ rw e refl
      | inr e ↦ rw e (sym (h e))
    ]
