-- ===== src/Fees/Examples.antt =====
-- A fee history and an estimate.
use validator_funding_pool.Base.{ℕ, ◌*◌, ◌≤◌, ◌<◌, ◌≡◌, refl, ◌⊎◌, [], ◌∷◌, some}
use validator_funding_pool.Failure.{ok, err, fees_unread, estimate_above_ceiling}
use validator_funding_pool.Fees.{FeeHistory, Fees, resolve_suggested_fees, apply_gas_margin}
use validator_funding_pool.Fees.Laws.{
  after_full_block, resolve_suggested_fees_bounds, apply_gas_margin_bounds,
}

-- The reward is 0, and the endpoint has no suggestion either.
abbrev history : FeeHistory
history = record { base_fee_per_gas = 90 ∷ 64 ∷ []; reward = some ((0 ∷ []) ∷ []) }

abbrev fees : Fees
fees = record { base_fee_per_gas = 64; max_fee_per_gas = 81; max_priority_fee_per_gas = 1 }

resolve_suggested_fees_bounds_example :
    (1 ≤ 1) × (1 ≤ 81) × ((64 < 8) ⊎ (after_full_block (after_full_block 64) ≤ 81))
unfolding resolve_suggested_fees
resolve_suggested_fees_bounds_example =
    resolve_suggested_fees_bounds (ok history) (err fees_unread) {fees = fees} refl

apply_gas_margin_bounds_example :
    (apply_gas_margin 90 100 ≡ err estimate_above_ceiling) × (100 * 95 < 90 * 100)
    ⊎ ((gas : ℕ) × (apply_gas_margin 90 100 ≡ ok gas)
        × (90 ≤ gas)
        × (gas * 100 ≤ 100 * 95)
        × (gas * 100 ≤ 90 * 120))
apply_gas_margin_bounds_example = apply_gas_margin_bounds 90 100
