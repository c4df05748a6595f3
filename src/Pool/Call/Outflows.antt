-- ===== src/Pool/Call/Outflows.antt =====
-- What leaves the pool is in its events (contracts/ValidatorFundingPool.sol).
pub mod Calls
use validator_funding_pool.Base.{
  ℕ, ◌+◌, ◌-◌, ◌≤◌, ◌≡◌, refl, sym, Bool, true, false, not, ◌&&◌, ◌||◌, List, [], ◌∷◌, ◌++◌, arith,
  ltb, leb, ◌==◌, Bool-cases, inl, inr, length,
}
use mathlib.Core.Path.{subst}
use validator_funding_pool.Failure.{
  Result, ok, err, ◌>>=◌, guard, refuse_if, invalid_state, not_operator, not_participant,
  nothing_to_refund, nothing_to_claim, exit_fee_too_high, insufficient_exit_fee,
  exit_request_failed, funding_still_open, funding_closed, zero_amount, funding_cap_exceeded,
  funding_incomplete, invalid_predeposit_value, funding_targets_do_not_match_validator, Ensures,
  returned, thrown, bind-Ensures, Ensures-sound, map-Ensures,
}
use validator_funding_pool.Pool.Map.{get, set}
use validator_funding_pool.Pool.{
  predeposit_wei, top_up_wei, validator_deposit_wei, pubkey_length, Stage, uninitialized,
  predeposited, funding, topped_up, PoolConfig, Pool, PoolEvent, claimed, refunded,
  validator_top_up_submitted, funding_attempt_closed, funding_attempt_opened, participant_funded,
  pool_topped_up, validator_predeposited, Outcome, checked, checked_sub, is_stage, is_participant,
  funding_remaining_wei_of, claimable, gross_pool_proceeds, with_snapshot, validate_recipient,
  send_eth, receive_value,
}
use validator_funding_pool.Pool.Lifecycle.{
  ValidatorData, validate_validator_data, commit, deposit, commit_and_predeposit,
  set_funding_attempt, open_with, open_funding_attempt, close_participants, closing_of, closed_with,
  close_expired_funding_attempt, credit_targets, topped_up_with, top_up_validator,
}
use validator_funding_pool.Pool.Payout.{
  fund, receive_transfer, ExitAnswers, read_fee, can_request_exit, return_change, request_exit,
  refund_to, claim_to,
}
use validator_funding_pool.Pool.Call.{
  Message, commit_and_predeposit_call, open_funding_attempt_call, fund_call, transfer, close_call,
  top_up_call, request_exit_call, refund_to_call, claim_to_call, forced, exec,
}
use validator_funding_pool.Pool.Invariant.Deposits.{IsPaid, deposit-IsPaid}
use validator_funding_pool.Pool.Invariant.Balance.{send_eth-Ensures}

-- What an event says that left the pool.
abbrev pub amount_out : PoolEvent → ℕ
amount_out (claimed participant recipient amount) = amount
amount_out (refunded participant recipient amount) = amount
amount_out (validator_top_up_submitted pubkey_hash pubkey root) = top_up_wei
amount_out _ = 0

abbrev pub out_of : List PoolEvent → ℕ
out_of [] = 0
out_of (e ∷ es) = amount_out e + out_of es

pub out_of-append : (es fs : List PoolEvent) → out_of (es ++ fs) ≡ out_of es + out_of fs
out_of-append [] fs = omega arith
out_of-append (e ∷ es) fs = omega (arith, out_of-append es fs)

module _ (before : ℕ) where
  -- The balance of `before` is still there, or the events say what left.
  abbrev pub Accounts : Outcome → Type 0
  Accounts o = before ≤ o.0.balance + out_of o.1

  pub with_snapshot-Accounts :
      (p : Pool) (es : List PoolEvent)
      → before ≤ p.balance + out_of es
      → Ensures Accounts (with_snapshot p es)
  unfolding with_snapshot
  with_snapshot-Accounts p es h =
      bind-Ensures (gross_pool_proceeds p) _
        λ gross _. returned (omega (arith, h, out_of-append es (_ ∷ [])))
