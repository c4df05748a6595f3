-- ===== src/Pool/Call.antt =====
-- The calls of the pool contract from outside (contracts/ValidatorFundingPool.sol), one after the
-- other. `refund` and `claim` are `refundTo` and `claimTo` with the sender as the recipient. A call
-- that reverts changes nothing and is no step.
pub mod Laws
pub mod Finality
pub mod Outflows
use validator_funding_pool.Base.{ℕ, ◌+◌, ◌≡◌, Bool, List, []}
use validator_funding_pool.Failure.{Result, ok}
use validator_funding_pool.Pool.{PoolConfig, Pool, PoolEvent, Outcome, receive_value}
use validator_funding_pool.Pool.Lifecycle.{
  construct, ValidatorData, commit_and_predeposit, open_funding_attempt,
  close_expired_funding_attempt, top_up_validator,
}
use validator_funding_pool.Pool.Payout.{
  fund, receive_transfer, ExitAnswers, request_exit, refund_to, claim_to,
}

-- What arrives: who calls with which value, when, with which arguments, and what the other contracts
-- answer. `forced` is ether that arrives without a call, such as fees of a block.
pub data Message : Type 0 where
  commit_and_predeposit_call :
      (sender value : ℕ) (data_of : ValidatorData) (accepted : Bool) → Message
  open_funding_attempt_call : (sender now : ℕ) (participants targets : List ℕ) → Message
  fund_call : (sender value now : ℕ) → Message
  transfer : (sender value now : ℕ) → Message
  close_call : (now : ℕ) → Message
  top_up_call : (sender now : ℕ) (accepted : Bool) → Message
  request_exit_call : (sender value now max_fee : ℕ) (answers : ExitAnswers) → Message
  refund_to_call : (sender recipient : ℕ) (taken : Bool) → Message
  claim_to_call : (sender recipient : ℕ) (taken : Bool) → Message
  forced : (value : ℕ) → Message

module _ (keccak256 : List ℕ → ℕ) (c : PoolConfig) where
  -- The value of a call is in the balance when its function starts.
  unfoldable pub exec : Pool → Message → Result Outcome
  exec p (commit_and_predeposit_call sender value d accepted) =
      commit_and_predeposit keccak256 c (receive_value p value) sender value d accepted
  exec p (open_funding_attempt_call sender now participants targets) =
      open_funding_attempt c p sender now participants targets
  exec p (fund_call sender value now) = fund c (receive_value p value) sender value now
  exec p (transfer sender value now) = receive_transfer c (receive_value p value) sender value now
  exec p (close_call now) = close_expired_funding_attempt p now
  exec p (top_up_call sender now accepted) = top_up_validator c p sender now accepted
  exec p (request_exit_call sender value now max_fee answers) =
      request_exit c (receive_value p value) sender value now max_fee answers
  exec p (refund_to_call sender recipient taken) = refund_to c p sender recipient taken
  exec p (claim_to_call sender recipient taken) = claim_to c p sender recipient taken
  exec p (forced value) = ok (receive_value p value, [])

  -- The pools that a sequence of calls leads to.
  pub data Reachable : Pool → Type 0 where
    start :
        (has_code : ℕ → Bool) (balance : ℕ) {p : Pool}
        → construct has_code c balance ≡ ok p
        → Reachable p
    later :
        {p q : Pool} {es : List PoolEvent} (m : Message)
        → Reachable p
        → exec p m ≡ ok (q, es)
        → Reachable q

  -- One pool leads to another by a sequence of calls.
  pub data Leads : Pool → Pool → Type 0 where
    none : {p : Pool} → Leads p p
    then_call :
        {p q r : Pool} {es : List PoolEvent} (m : Message)
        → exec p m ≡ ok (q, es)
        → Leads q r
        → Leads p r
