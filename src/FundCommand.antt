-- ===== src/FundCommand.antt =====
-- What the `fund` command decides on before it signs (scripts/fund.ts): the funding review, the
-- amount, and the way it is sent. The checks of the beacon node and the estimate of the gas, which
-- stand between these steps, are modelled with their own parts.
pub mod Committed
pub mod Views
pub mod Review
pub mod Logs
pub mod Delivery
mod Examples
use validator_funding_pool.Base.{
  ℕ, Bool, true, false, List, [], ◌∷◌, Option, none, some, ltb, ◌==◌, if◌then◌else◌,
}
use validator_funding_pool.Decimal.{Text}
use validator_funding_pool.Text.{same_hex}
use validator_funding_pool.Env.{Env, AddressTest, env_big_int}
use validator_funding_pool.Fees.{fund_via_plain_transfer}
use validator_funding_pool.Failure.{
  Result, ok, err, ◌>>=◌, ◌>>◌, refuse_if, no_remaining_cap, amount_exceeds_cap, amount_is_zero,
}
use validator_funding_pool.Pins.{
  FundingPinnedValues, FundingState, assert_funding_pins, assert_still_fundable,
}

-- `participantAt` and `fundingTargetWeiOf` of one participant.
pub record ListedTarget : Type 0 where
  pub participant : Text
  pub target : ℕ

-- The loop of the review: the targets of the caller and of the operator.
unfoldable pub review_targets : (caller operator : Text) → ℕ × ℕ → List ListedTarget → ℕ × ℕ
review_targets caller operator found [] = found
review_targets caller operator (own, the_operator's) (l ∷ ls) =
    review_targets caller operator
      (
        if same_hex l.participant caller then l.target else own,
        if same_hex l.participant operator then l.target else the_operator's,
      )
      ls

-- What the review reads of the pool.
pub record ReviewedPool : Type 0 where
  pub funding_attempt : ℕ
  pub funding_deadline : ℕ
  pub operator : Text
  pub listed : List ListedTarget

abbrev pub reviewed_values : (caller : Text) → ReviewedPool → FundingPinnedValues
reviewed_values caller r =
    let found = review_targets caller r.operator (0, 0) r.listed in
    record {
      funding_attempt = r.funding_attempt;
      funding_deadline = r.funding_deadline;
      caller_target_wei = found.0;
      operator_target_wei = found.1;
    }

unfoldable pub print_and_check_funding_review :
    Env → (caller : Text) → ReviewedPool → Result FundingPinnedValues
print_and_check_funding_review env caller r = do
  assert_funding_pins env (reviewed_values caller r)
  ok (reviewed_values caller r)

-- `AMOUNT_WEI`, or all that remains.
unfoldable pub amount_to_fund : Env → (remaining : ℕ) → Result ℕ
amount_to_fund env remaining = do
  refuse_if (remaining == 0) no_remaining_cap
  amount ← env_big_int env "AMOUNT_WEI" (some remaining)
  refuse_if (ltb remaining amount) amount_exceeds_cap
  refuse_if (amount == 0) amount_is_zero
  ok amount

-- What the command sends: the amount, and whether as a plain transfer.
pub record Payment : Type 0 where
  pub via_transfer : Bool
  pub amount : ℕ

unfoldable pub decide_payment :
    AddressTest
    → Env
    → (ledger_accounts : List Text) → (caller : Text) → ReviewedPool
    → (remaining : ℕ) → (re_read : FundingState) → Result Payment
decide_payment is_address env ledger_accounts caller r remaining re_read = do
  reviewed ← print_and_check_funding_review env caller r
  amount ← amount_to_fund env remaining
  via_transfer ← fund_via_plain_transfer env ledger_accounts
  assert_still_fundable is_address env re_read amount reviewed.funding_attempt
  ok (record { via_transfer = via_transfer; amount = amount })
