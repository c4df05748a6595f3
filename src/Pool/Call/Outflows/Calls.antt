-- ===== src/Pool/Call/Outflows/Calls.antt =====
-- Each call of the pool accounts in its events for what leaves it
-- (contracts/ValidatorFundingPool.sol).
use validator_funding_pool.Base.{
  ℕ, ◌+◌, ◌-◌, ◌≤◌, ◌≡◌, Bool, ◌&&◌, List, arith, ltb, leb, ◌==◌, Bool-cases, inl, inr, length,
}
use validator_funding_pool.Failure.{
  Result, guard, refuse_if, invalid_state, not_operator, not_participant, nothing_to_refund,
  nothing_to_claim, exit_fee_too_high, insufficient_exit_fee, exit_request_failed,
  funding_still_open, funding_closed, zero_amount, funding_cap_exceeded, funding_incomplete,
  invalid_predeposit_value, funding_targets_do_not_match_validator, Ensures, returned, thrown,
  bind-Ensures, Ensures-sound, map-Ensures,
}
use validator_funding_pool.Pool.Map.{get, set}
use validator_funding_pool.Pool.{
  predeposit_wei, top_up_wei, validator_deposit_wei, pubkey_length, uninitialized, predeposited,
  funding, topped_up, PoolConfig, Pool, Outcome, checked, checked_sub, is_stage, is_participant,
  funding_remaining_wei_of, claimable, validate_recipient, send_eth, receive_value,
}
use validator_funding_pool.Pool.Lifecycle.{
  ValidatorData, validate_validator_data, commit, deposit, commit_and_predeposit,
  set_funding_attempt, open_with, open_funding_attempt, close_participants, closing_of, closed_with,
  close_expired_funding_attempt, credit_targets, topped_up_with, top_up_validator,
}
use validator_funding_pool.Pool.Payout.{
  fund, receive_transfer, ExitAnswers, read_fee, can_request_exit, return_change, request_exit,
  refund_to, claim_to,
}
use validator_funding_pool.Pool.Call.{
  Message, commit_and_predeposit_call, open_funding_attempt_call, fund_call, transfer, close_call,
  top_up_call, request_exit_call, refund_to_call, claim_to_call, forced, exec,
}
use validator_funding_pool.Pool.Invariant.Deposits.{deposit-IsPaid}
use validator_funding_pool.Pool.Invariant.Balance.{send_eth-Ensures}
use validator_funding_pool.Pool.Call.Outflows.{Accounts, with_snapshot-Accounts}

module _ (c : PoolConfig) (p : Pool) where
  commit-Accounts :
      (keccak256 : List ℕ → ℕ) (sender value : ℕ) (d : ValidatorData) (accepted : Bool)
      → Ensures
          (Accounts p.balance)
          (commit_and_predeposit keccak256 c (receive_value p value) sender value d accepted)
  unfolding commit_and_predeposit
  commit-Accounts keccak256 sender value d accepted =
      bind-Ensures (guard (sender == c.operator) not_operator) _ λ _ _.
        bind-Ensures (guard (is_stage p.state uninitialized) invalid_state) _ λ _ _.
          bind-Ensures (guard (value == predeposit_wei) invalid_predeposit_value) _ λ _ exact.
            bind-Ensures (validate_validator_data d.pubkey d.predeposit_signature d.predeposit_root)
              _
              λ _ _.
                bind-Ensures (validate_validator_data d.pubkey d.top_up_signature d.top_up_root) _
                  λ _ _.
                    bind-Ensures (deposit (receive_value p value) predeposit_wei accepted) _
                      λ paid sent.
                        let out =
                          Ensures-sound
                            (deposit-IsPaid (receive_value p value) predeposit_wei accepted) paid
                            sent in
                        let amount : value ≡ predeposit_wei = ground arith in
                        let left : paid.balance ≡ p.balance + value - predeposit_wei =
                          λ i. (out.only_balance i).balance in
                        with_snapshot-Accounts p.balance (commit keccak256 paid d) _
                          (omega (arith, left, amount))

  open-Accounts :
      (sender now : ℕ) (participants targets : List ℕ)
      → Ensures (Accounts p.balance) (open_funding_attempt c p sender now participants targets)
  unfolding open_funding_attempt
  open-Accounts sender now participants targets =
      bind-Ensures (guard (sender == c.operator) not_operator) _ λ _ _.
        bind-Ensures (guard (is_stage p.state predeposited) invalid_state) _ λ _ _.
          bind-Ensures (set_funding_attempt c p participants targets) _ λ r _.
            bind-Ensures (checked (now + c.funding_window_duration)) _ λ deadline _.
              bind-Ensures (checked (p.funding_attempt + 1)) _ λ attempt _.
                with_snapshot-Accounts p.balance (open_with p r attempt deadline) _ (omega arith)

  fund-Accounts :
      (sender value now : ℕ)
      → Ensures (Accounts (p.balance + value)) (fund c (receive_value p value) sender value now)
  unfolding fund
  fund-Accounts sender value now =
      bind-Ensures (guard (is_stage p.state funding) invalid_state) _ λ _ _.
        bind-Ensures (refuse_if (ltb p.funding_deadline now) funding_closed) _ λ _ _.
          bind-Ensures (guard (is_participant p sender) not_participant) _ λ _ _.
            bind-Ensures (refuse_if (value == 0) zero_amount) _ λ _ _.
              bind-Ensures (funding_remaining_wei_of c (receive_value p value) sender) _ λ r _.
                bind-Ensures (refuse_if (ltb r value) funding_cap_exceeded) _ λ _ _.
                  bind-Ensures (checked (get p.active_funded_wei_of sender + value)) _ λ own _.
                    bind-Ensures (checked (p.total_active_funded_wei + value)) _
                      λ all _. with_snapshot-Accounts (p.balance + value) _ _ (omega arith)

  pub receive-Accounts :
      (sender value now : ℕ)
      → Ensures
          (Accounts (p.balance + value))
          (receive_transfer c (receive_value p value) sender value now)
  unfolding receive_transfer
  receive-Accounts sender value now = elim (Bool-cases (is_stage p.state funding)) [
    | inl e ↦ rw (receive_transfer, e) (fund-Accounts sender value now)
    | inr e ↦ elim (Bool-cases (is_stage p.state topped_up)) [
      | inl t ↦ rw (receive_transfer, e, t) (returned (omega arith))
      | inr t ↦ rw (receive_transfer, e, t) thrown
    ]
  ]

  close-Accounts : (now : ℕ) → Ensures (Accounts p.balance) (close_expired_funding_attempt p now)
  unfolding close_expired_funding_attempt
  close-Accounts now = bind-Ensures (guard (is_stage p.state funding) invalid_state) _ λ _ _.
      bind-Ensures (refuse_if (leb now p.funding_deadline) funding_still_open) _ λ _ _.
        bind-Ensures (close_participants p.funding_attempt (closing_of p) p.participants) _
          λ z _. with_snapshot-Accounts p.balance (closed_with p z) _ (omega arith)

  top_up-Accounts :
      (sender now : ℕ) (accepted : Bool)
      → Ensures (Accounts p.balance) (top_up_validator c p sender now accepted)
  unfolding top_up_validator
  top_up-Accounts sender now accepted =
      bind-Ensures (guard (sender == c.operator) not_operator) _ λ _ _.
        bind-Ensures (guard (is_stage p.state funding) invalid_state) _ λ _ _.
          bind-Ensures (refuse_if (ltb p.funding_deadline now) funding_closed) _ λ _ _.
            bind-Ensures (guard (p.total_active_funded_wei == top_up_wei) funding_incomplete) _
              λ _ _. bind-Ensures (checked (top_up_wei + p.total_refundable_wei)) _ λ needed _.
                bind-Ensures (refuse_if (ltb p.balance needed) funding_incomplete) _ λ _ _.
                  bind-Ensures (refuse_if p.top_up_submitted invalid_state) _ λ _ _.
                    bind-Ensures
                      (credit_targets p.funding_target_wei_of p.credited_wei_of p.total_credited_wei
                        p.participants)
                      _
                      λ r _.
                        bind-Ensures
                          (guard (r.1 == validator_deposit_wei)
                            funding_targets_do_not_match_validator)
                          _
                          λ _ _. bind-Ensures (deposit p top_up_wei accepted) _ λ paid sent.
                            let out =
                              Ensures-sound (deposit-IsPaid p top_up_wei accepted) paid sent in
                            let left : paid.balance ≡ p.balance - top_up_wei =
                              λ i. (out.only_balance i).balance in
                            with_snapshot-Accounts p.balance (topped_up_with paid r.0 r.1) _
                              (omega (arith, left))

  refund-Accounts :
      (sender recipient : ℕ) (taken : Bool)
      → Ensures (Accounts p.balance) (refund_to c p sender recipient taken)
  unfolding refund_to
  refund-Accounts sender recipient taken =
      let amount = get p.refundable_wei_of sender in
      bind-Ensures (validate_recipient c recipient) _ λ _ _.
        bind-Ensures (refuse_if (amount == 0) nothing_to_refund) _ λ _ _.
          bind-Ensures (checked_sub p.total_refundable_wei amount) _ λ outstanding _.
            bind-Ensures (checked (p.total_refunded_wei + amount)) _ λ paid_back _.
              let written = record p {
                refundable_wei_of = set p.refundable_wei_of sender 0;
                total_refundable_wei = outstanding;
                total_refunded_wei = paid_back;
              } in
              bind-Ensures (send_eth written amount taken) _ λ after sent.
                let out = Ensures-sound (send_eth-Ensures written amount taken) after sent in
                let left : after.balance ≡ p.balance - amount = λ i. (out.1 i).balance in
                with_snapshot-Accounts p.balance after _ (omega (arith, left))

  claim-Accounts :
      (sender recipient : ℕ) (taken : Bool)
      → Ensures (Accounts p.balance) (claim_to c p sender recipient taken)
  unfolding claim_to
  claim-Accounts sender recipient taken =
      bind-Ensures (guard (is_stage p.state topped_up) invalid_state) _ λ _ _.
        bind-Ensures (validate_recipient c recipient) _ λ _ _.
          bind-Ensures (claimable p sender) _ λ amount _.
            bind-Ensures (refuse_if (amount == 0) nothing_to_claim) _ λ _ _.
              bind-Ensures (checked (get p.claimed_wei_of sender + amount)) _ λ by_sender _.
                bind-Ensures (checked (p.total_claimed_wei + amount)) _ λ by_all _.
                  let written = record p {
                    claimed_wei_of = set p.claimed_wei_of sender by_sender;
                    total_claimed_wei = by_all;
                  } in
                  bind-Ensures (send_eth written amount taken) _ λ after sent.
                    let out = Ensures-sound (send_eth-Ensures written amount taken) after sent in
                    let left : after.balance ≡ p.balance - amount = λ i. (out.1 i).balance in
                    with_snapshot-Accounts p.balance after _ (omega (arith, left))

  return_change-left :
      (counted : Pool) (change : ℕ) (taken : Bool)
      → Ensures (λ q. counted.balance ≤ q.balance + change) (return_change counted change taken)
  return_change-left counted change taken = elim (Bool-cases (change == 0)) [
    | inl e ↦ rw (return_change, e) (returned (omega arith))
    | inr e ↦
        rw (return_change, e)
          (map-Ensures (λ q out. kept q out.0 (λ i. (out.1 i).balance))
            (send_eth-Ensures counted change taken))
  ]
    where
      kept :
          (q : Pool)
          → change ≤ counted.balance
          → q.balance ≡ counted.balance - change
          → counted.balance ≤ q.balance + change
      kept q enough left = omega (arith, left)

  exit-Accounts :
      (sender value now max_fee : ℕ) (answers : ExitAnswers)
      → Ensures
          (Accounts p.balance)
          (request_exit c (receive_value p value) sender value now max_fee answers)
  unfolding request_exit
  exit-Accounts sender value now max_fee answers =
      bind-Ensures (guard (length p.committed_pubkey == pubkey_length) invalid_state) _ λ _ _.
        bind-Ensures (guard (can_request_exit c (receive_value p value) sender) not_participant) _
          λ _ _. bind-Ensures (read_fee answers.fee) _ λ fee _.
            bind-Ensures (refuse_if (ltb max_fee fee) exit_fee_too_high) _ λ _ _.
              bind-Ensures (refuse_if (ltb value fee) insufficient_exit_fee) _ λ _ enough.
                bind-Ensures
                  (guard (leb fee (p.balance + value) && answers.accepted) exit_request_failed) _
                  λ _ _. bind-Ensures (checked (p.exit_request_attempt_count + 1)) _ λ attempts _.
                    let counted = record p {
                      balance = p.balance + value - fee;
                      exit_request_attempt_count = attempts;
                      last_exit_request_fee_paid = fee;
                      last_exit_request_at = now;
                    } in
                    let paid_for : fee ≤ value = ground arith in
                    bind-Ensures (return_change counted (value - fee) answers.change_taken) _
                      λ after sent.
                        let left =
                          Ensures-sound
                            (return_change-left counted (value - fee) answers.change_taken) after
                            sent in
                        returned (omega (arith, left))

-- What holds with the value of the call holds without it.
without_value :
    (p : Pool) (value : ℕ) (r : Result Outcome)
    → Ensures (Accounts (p.balance + value)) r
    → Ensures (Accounts p.balance) r
without_value p value r = map-Ensures (λ o h. omega (arith, h))

-- A call takes nothing out of the balance but what its events say, whether or not the pool is valid.
pub exec-Accounts :
    (keccak256 : List ℕ → ℕ) (c : PoolConfig) (p : Pool) (m : Message)
    → Ensures (Accounts p.balance) (exec keccak256 c p m)
unfolding exec
exec-Accounts keccak256 c p (commit_and_predeposit_call sender value d accepted) =
    commit-Accounts c p keccak256 sender value d accepted
exec-Accounts keccak256 c p (open_funding_attempt_call sender now participants targets) =
    open-Accounts c p sender now participants targets
exec-Accounts keccak256 c p (fund_call sender value now) =
    without_value p value _ (fund-Accounts c p sender value now)
exec-Accounts keccak256 c p (transfer sender value now) =
    without_value p value _ (receive-Accounts c p sender value now)
exec-Accounts keccak256 c p (close_call now) = close-Accounts c p now
exec-Accounts keccak256 c p (top_up_call sender now accepted) =
    top_up-Accounts c p sender now accepted
exec-Accounts keccak256 c p (request_exit_call sender value now max_fee answers) =
    exit-Accounts c p sender value now max_fee answers
exec-Accounts keccak256 c p (refund_to_call sender recipient taken) =
    refund-Accounts c p sender recipient taken
exec-Accounts keccak256 c p (claim_to_call sender recipient taken) =
    claim-Accounts c p sender recipient taken
exec-Accounts keccak256 c p (forced value) = returned (omega arith)
