-- ===== src/Fees.antt =====
-- The gas limit and the fees of a transaction (scripts/lib/common.ts, from `resolveSuggestedFees` to
-- `fundViaPlainTransfer`). What the client answers is an argument; `err` is a call that rejects.
pub mod Laws
mod Examples
use validator_funding_pool.Base.{
  ℕ, ◌+◌, ◌*◌, ◌/◌, ◌^◌, Bool, true, false, List, [], ◌∷◌, Option, none, some, ltb, ◌==◌,
  if◌then◌else◌, length,
}
use validator_funding_pool.Decimal.{Text}
use validator_funding_pool.Text.{codes, same_text}
use validator_funding_pool.Env.{Env}
use validator_funding_pool.Failure.{
  Result, ok, err, ◌>>=◌, ◌>>◌, refuse_if, or_fail, no_base_fee, estimate_above_ceiling,
  estimate_failed, fees_unread, fund_via_transfer_malformed,
}

-- `eth_feeHistory`: the base fees, the last one of the next block, and the rewards of each block.
pub record FeeHistory : Type 0 where
  pub base_fee_per_gas : List ℕ
  pub reward : Option (List (List ℕ))

pub record Fees : Type 0 where
  pub base_fee_per_gas : ℕ
  pub max_fee_per_gas : ℕ
  pub max_priority_fee_per_gas : ℕ

-- `xs[xs.length - 1]`
abbrev last? : List ℕ → Option ℕ
last? [] = none
last? (x ∷ []) = some x
last? (x ∷ y ∷ xs) = last? (y ∷ xs)

-- `reward?.[0]?.[0] ?? 0n`
abbrev first_reward : Option (List (List ℕ)) → ℕ
first_reward (some ((r ∷ _) ∷ _)) = r
first_reward _ = 0

-- A reward of 0 is replaced by the endpoint's own suggestion, and that by 1 if it fails or is 0.
unfoldable pub priority_fee : Option (List (List ℕ)) → Result ℕ → ℕ
priority_fee reward suggested =
    if first_reward reward == 0
    then elim suggested [ ok p ↦ if p == 0 then 1 else p | err _ ↦ 1 ]
    else first_reward reward

unfoldable pub resolve_suggested_fees : Result FeeHistory → Result ℕ → Result Fees
unfolding priority_fee
resolve_suggested_fees history suggested = do
  h ← history
  base ← elim (last? h.base_fee_per_gas) [ none ↦ err no_base_fee | some b ↦ ok b ]
  let priority = priority_fee h.reward suggested
  let two_blocks = base * 9 ^ 2 / 8 ^ 2
  let max_fee = if ltb two_blocks priority then two_blocks + priority else two_blocks
  ok (record {
    base_fee_per_gas = base;
    max_fee_per_gas = max_fee;
    max_priority_fee_per_gas = priority;
  })

abbrev pub gas_margin_percent : ℕ
gas_margin_percent = 120

abbrev pub block_gas_limit_ceiling_percent : ℕ
block_gas_limit_ceiling_percent = 95

unfoldable pub apply_gas_margin : ℕ → ℕ → Result ℕ
apply_gas_margin estimate block_gas_limit =
    let ceiling = block_gas_limit * block_gas_limit_ceiling_percent / 100 in
    let with_margin = estimate * gas_margin_percent / 100 in
    refuse_if (ltb ceiling estimate) estimate_above_ceiling
    >> ok (if ltb ceiling with_margin then ceiling else with_margin)

pub record TransactionFields : Type 0 where
  pub gas : ℕ
  pub max_fee_per_gas : ℕ
  pub max_priority_fee_per_gas : ℕ

-- The arguments are `estimateGas()`, `eth_feeHistory`, the suggested priority fee, and the gas limit
-- of the latest block.
unfoldable pub resolve_transaction_fields :
    Result ℕ → Result FeeHistory → Result ℕ → Result ℕ → Result TransactionFields
resolve_transaction_fields estimated history suggested gas_limit = do
  estimate ← or_fail estimated estimate_failed
  fees ← or_fail (resolve_suggested_fees history suggested) fees_unread
  limit ← or_fail gas_limit fees_unread
  gas ← apply_gas_margin estimate limit
  ok (record {
    gas = gas;
    max_fee_per_gas = fees.max_fee_per_gas;
    max_priority_fee_per_gas = fees.max_priority_fee_per_gas;
  })

-- Whether `fund` is sent as a plain transfer: `FUND_VIA_TRANSFER`, or else a Ledger's accounts.
unfoldable pub fund_via_plain_transfer : Env → List Text → Result Bool
fund_via_plain_transfer env ledger_accounts = elim (env "FUND_VIA_TRANSFER") [
  | none ↦ ok (ltb 0 (length ledger_accounts))
  | some t ↦
      if same_text t (codes "1")
      then ok true
      else if same_text t (codes "0")
      then ok false
      else if ltb 0 (length t)
      then err fund_via_transfer_malformed
      else ok (ltb 0 (length ledger_accounts))
]
