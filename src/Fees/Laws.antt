-- ===== src/Fees/Laws.antt =====
-- The fees cover the suggestion and two full blocks, and the gas limit lies between the estimate and
-- the ceiling.
use validator_funding_pool.Base.{
  ℕ, ◌+◌, ◌*◌, ◌^◌, ◌/◌, ◌≤◌, ◌<◌, ◌≡◌, ◌⊎◌, inl, inr, List, Option, arith, ltb, Bool-cases,
  Option-cases, if◌then◌else◌,
}
use validator_funding_pool.Failure.{Result, ok, err, estimate_above_ceiling}
use validator_funding_pool.Fees.{
  FeeHistory, Fees, last?, priority_fee, resolve_suggested_fees, apply_gas_margin,
}

-- The base fee of the block after a full one, by EIP-1559: an eighth more, and 1 wei more at least.
abbrev pub after_full_block : ℕ → ℕ
after_full_block base = base + (if ltb base 8 then 1 else base / 8)

two_blocks-after_full_block :
    (base : ℕ) → (base < 8) ⊎ (after_full_block (after_full_block base) ≤ base * 9 ^ 2 / 8 ^ 2)
two_blocks-after_full_block base = elim (Bool-cases (ltb base 8)) [
  | inl low ↦ inl (ground arith)
  | inr high ↦ inr (ground arith)
]

priority_fee-pos :
    (reward : Option (List (List ℕ))) (suggested : Result ℕ) → 1 ≤ priority_fee reward suggested
unfolding priority_fee
priority_fee-pos reward (ok p) = ground arith
priority_fee-pos reward (err e) = ground arith

-- Whatever the endpoint answers, fees that are returned have a positive priority fee that the fee
-- cap covers, and the base fee is below 8 wei, or the fee cap covers the base fee after two more
-- full blocks, each of which raises it by an eighth, and by 1 wei at least.
pub resolve_suggested_fees_bounds :
    (history : Result FeeHistory) (suggested : Result ℕ) {fees : Fees}
    → resolve_suggested_fees history suggested ≡ ok fees
    → (1 ≤ fees.max_priority_fee_per_gas)
      × (fees.max_priority_fee_per_gas ≤ fees.max_fee_per_gas)
      × ((fees.base_fee_per_gas < 8)
          ⊎ (after_full_block (after_full_block fees.base_fee_per_gas) ≤ fees.max_fee_per_gas))
unfolding resolve_suggested_fees
resolve_suggested_fees_bounds (err e) suggested h = cc
resolve_suggested_fees_bounds (ok history) suggested h =
    elim (Option-cases (last? history.base_fee_per_gas)) [
      | inl missing ↦ cc (rw missing at h)
      | inr (base, e) ↦
          ground
            (arith, priority_fee-pos history.reward suggested, two_blocks-after_full_block base)
    ]

-- The gas limit is refused exactly when the estimate is above 95% of the block's; otherwise it lies
-- between the estimate and that ceiling, and is at most 120% of the estimate.
pub apply_gas_margin_bounds :
    (estimate limit : ℕ)
    → (apply_gas_margin estimate limit ≡ err estimate_above_ceiling) × (limit * 95 < estimate * 100)
      ⊎ ((gas : ℕ) × (apply_gas_margin estimate limit ≡ ok gas)
          × (estimate ≤ gas)
          × (gas * 100 ≤ limit * 95)
          × (gas * 100 ≤ estimate * 120))
unfolding apply_gas_margin
apply_gas_margin_bounds estimate limit = elim (Bool-cases (ltb (limit * 95 / 100) estimate)) [
  | inl above ↦ inl (rw above, ground arith)
  | inr below ↦ elim (Bool-cases (ltb (limit * 95 / 100) (estimate * 120 / 100))) [
    | inl capped ↦
        inr (limit * 95 / 100, rw (below, capped), ground arith, ground arith, ground arith)
    | inr margin ↦
        inr (estimate * 120 / 100, rw (below, margin), ground arith, ground arith, ground arith)
  ]
]
