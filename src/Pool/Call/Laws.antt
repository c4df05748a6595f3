-- ===== src/Pool/Call/Laws.antt =====
-- What holds of every pool that calls can lead to (contracts/ValidatorFundingPool.sol).
use validator_funding_pool.Base.{ℕ, ◌==◌, ◌||◌, not, refl, Bool, List, arith}
use validator_funding_pool.Failure.{
  refuse_if, invalid_deposit_contract, invalid_withdrawal_request_predeploy, invalid_operator,
  invalid_funding_window, Ensures, returned, bind-Ensures, Ensures-sound,
}
use validator_funding_pool.Pool.{PoolConfig, Pool}
use validator_funding_pool.Pool.Lifecycle.{construct, deployed}
use validator_funding_pool.Pool.Map.{get}
use validator_funding_pool.Pool.Call.{
  Message, commit_and_predeposit_call, open_funding_attempt_call, fund_call, transfer, close_call,
  top_up_call, request_exit_call, refund_to_call, claim_to_call, forced, exec, Reachable, start,
  later,
}
use validator_funding_pool.Pool.Invariant.{Valid, ValidOutcome}
use validator_funding_pool.Pool.Invariant.Attempt.{fund-Valid}
use validator_funding_pool.Pool.Invariant.Opening.{open_funding_attempt-Valid}
use validator_funding_pool.Pool.Invariant.Closing.{close_expired_funding_attempt-Valid}
use validator_funding_pool.Pool.Invariant.Deposits.{
  commit_and_predeposit-Valid, top_up_validator-Valid,
}
use validator_funding_pool.Pool.Invariant.Balance.{
  receive_value-Valid, receive_transfer-Valid, refund_to-Valid, request_exit-Valid,
}
use validator_funding_pool.Pool.Invariant.Claims.{claim_to-Valid}

deployed-Valid : (c : PoolConfig) (balance : ℕ) → Valid c (deployed balance)
unfolding get
deployed-Valid c balance = record {
  refundable = refl;
  covered = omega arith;
  submitted = refl;
  in_stage = (
    record {
      nobody = refl;
      no_index = λ a. refl;
      no_target = λ a. refl;
      no_active = λ a. refl;
      no_total = refl;
    },
    record { no_credit = λ a. refl; no_claim = λ a. refl; no_credits = refl; no_claims = refl },
  );
}

construct-Valid :
    (has_code : ℕ → Bool) (c : PoolConfig) (balance : ℕ)
    → Ensures (Valid c) (construct has_code c balance)
unfolding construct
construct-Valid has_code c balance =
    bind-Ensures
      (refuse_if (c.deposit_contract == 0 || not (has_code c.deposit_contract))
        invalid_deposit_contract)
      _
      λ _ _.
        bind-Ensures
          (refuse_if
            (c.withdrawal_request_predeploy == 0 || not (has_code c.withdrawal_request_predeploy))
            invalid_withdrawal_request_predeploy)
          _
          λ _ _. bind-Ensures (refuse_if (c.operator == 0) invalid_operator) _ λ _ _.
            bind-Ensures (refuse_if (c.funding_window_duration == 0) invalid_funding_window) _
              λ _ _. returned (deployed-Valid c balance)

module _ (keccak256 : List ℕ → ℕ) (c : PoolConfig) where
  exec-Valid :
      (p : Pool) (m : Message) → Valid c p → Ensures (ValidOutcome c) (exec keccak256 c p m)
  unfolding exec
  exec-Valid p (commit_and_predeposit_call sender value d accepted) v =
      commit_and_predeposit-Valid keccak256 c p sender value d accepted v
  exec-Valid p (open_funding_attempt_call sender now participants targets) v =
      open_funding_attempt-Valid c p sender now participants targets v
  exec-Valid p (fund_call sender value now) v = fund-Valid c p sender value now v
  exec-Valid p (transfer sender value now) v = receive_transfer-Valid c p sender value now v
  exec-Valid p (close_call now) v = close_expired_funding_attempt-Valid c p now v
  exec-Valid p (top_up_call sender now accepted) v =
      top_up_validator-Valid c p sender now accepted v
  exec-Valid p (request_exit_call sender value now max_fee answers) v =
      request_exit-Valid c p sender value now max_fee answers v
  exec-Valid p (refund_to_call sender recipient taken) v =
      refund_to-Valid c p sender recipient taken v
  exec-Valid p (claim_to_call sender recipient taken) v =
      claim_to-Valid c p sender recipient taken v
  exec-Valid p (forced value) v = returned (receive_value-Valid c p value v)

  -- Every pool that the constructor and any sequence of successful calls and forced transfers can
  -- lead to is valid: its total of refunds is the sum of its mapping, its balance covers the
  -- refunds and what an open attempt has taken, and the targets, credits and claims of its stage
  -- add up.
  pub Reachable-Valid : (p : Pool) → Reachable keccak256 c p → Valid c p
  Reachable-Valid p (start has_code balance made) =
      Ensures-sound (construct-Valid has_code c balance) p made
  Reachable-Valid r (later {p} {q} {es} m before step) =
      Ensures-sound (exec-Valid p m (Reachable-Valid p before)) (q, es) step
