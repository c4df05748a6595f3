-- ===== src/Pool/Call/Finality.antt =====
-- The shares are final once the validator is topped up (contracts/ValidatorFundingPool.sol).
use validator_funding_pool.Base.{
  ℕ, ◌+◌, ◌-◌, ◌≡◌, refl, sym, Bool, true, false, ◌&&◌, List, ltb, leb, ◌==◌, Bool-cases, inl, inr,
  length,
}
use mathlib.Core.Path.{subst}
use validator_funding_pool.Failure.{
  Result, ◌>>=◌, guard, refuse_if, invalid_state, not_operator, not_participant, nothing_to_refund,
  nothing_to_claim, exit_fee_too_high, insufficient_exit_fee, exit_request_failed, Ensures,
  returned, thrown, bind-Ensures, Ensures-sound, map-Ensures,
}
use validator_funding_pool.Pool.Map.{Balances, get, set}
use validator_funding_pool.Pool.{
  Stage, uninitialized, predeposited, funding, topped_up, PoolConfig, Pool, PoolEvent, Outcome,
  pubkey_length, checked, checked_sub, is_stage, claimable, gross_pool_proceeds, with_snapshot,
  validate_recipient, send_eth, receive_value,
}
use validator_funding_pool.Pool.Lifecycle.{
  ValidatorData, commit_and_predeposit, open_funding_attempt, close_expired_funding_attempt,
  top_up_validator,
}
use validator_funding_pool.Pool.Payout.{
  fund, receive_transfer, ExitAnswers, read_fee, can_request_exit, return_change, request_exit,
  refund_to, claim_to,
}
use validator_funding_pool.Pool.Call.{
  Message, commit_and_predeposit_call, open_funding_attempt_call, fund_call, transfer, close_call,
  top_up_call, request_exit_call, refund_to_call, claim_to_call, forced, exec, Leads, none,
  then_call,
}
use validator_funding_pool.Pool.Invariant.Balance.{send_eth-Ensures}

-- The pool is topped up, with the credits `credited`.
pub record HasShares (credited : Balances) (total_credited : ℕ) (p : Pool) : Type 0 where
  pub stage : p.state ≡ topped_up
  pub credits : p.credited_wei_of ≡ credited
  pub all_credits : p.total_credited_wei ≡ total_credited

module _ (credited : Balances) (total_credited : ℕ) where
  abbrev Keeps : Outcome → Type 0
  Keeps o = HasShares credited total_credited o.0

  with_snapshot-HasShares :
      (p : Pool) (es : List PoolEvent)
      → HasShares credited total_credited p
      → Ensures Keeps (with_snapshot p es)
  unfolding with_snapshot
  with_snapshot-HasShares p es v = bind-Ensures (gross_pool_proceeds p) _ λ gross _. returned v

  send_eth-HasShares :
      (p : Pool) (amount : ℕ) (taken : Bool)
      → HasShares credited total_credited p
      → Ensures (HasShares credited total_credited) (send_eth p amount taken)
  send_eth-HasShares p amount taken v =
      map-Ensures
        (λ q out.
          subst (HasShares credited total_credited) (sym out.1)
            (record { stage = v.stage; credits = v.credits; all_credits = v.all_credits }))
        (send_eth-Ensures p amount taken)

  return_change-HasShares :
      (p : Pool) (change : ℕ) (taken : Bool)
      → HasShares credited total_credited p
      → Ensures (HasShares credited total_credited) (return_change p change taken)
  return_change-HasShares p change taken v = elim (Bool-cases (change == 0)) [
    | inl e ↦ rw (return_change, e) (returned v)
    | inr e ↦ rw (return_change, e) (send_eth-HasShares p change taken v)
  ]

  module _ (c : PoolConfig) (p : Pool) (v : HasShares credited total_credited p) where
    -- A step that needs another stage fails.
    off_stage :
        (s : Stage) (f : Unit {0} → Result Outcome)
        → is_stage topped_up s ≡ false
        → Ensures Keeps (guard (is_stage p.state s) invalid_state >>= f)
    off_stage s f h = rw (v.stage, h) thrown

    fund-HasShares :
        (value sender now : ℕ) → Ensures Keeps (fund c (receive_value p value) sender value now)
    unfolding fund
    fund-HasShares value sender now = off_stage funding _ refl

    commit-HasShares :
        (keccak256 : List ℕ → ℕ) (sender value : ℕ) (d : ValidatorData) (accepted : Bool)
        → Ensures Keeps
            (commit_and_predeposit keccak256 c (receive_value p value) sender value d accepted)
    unfolding commit_and_predeposit
    commit-HasShares keccak256 sender value d accepted =
        bind-Ensures (guard (sender == c.operator) not_operator) _
          λ _ _. off_stage uninitialized _ refl

    open-HasShares :
        (sender now : ℕ) (participants targets : List ℕ)
        → Ensures Keeps (open_funding_attempt c p sender now participants targets)
    unfolding open_funding_attempt
    open-HasShares sender now participants targets =
        bind-Ensures (guard (sender == c.operator) not_operator) _
          λ _ _. off_stage predeposited _ refl

    close-HasShares : (now : ℕ) → Ensures Keeps (close_expired_funding_attempt p now)
    unfolding close_expired_funding_attempt
    close-HasShares now = off_stage funding _ refl

    top_up-HasShares :
        (sender now : ℕ) (accepted : Bool)
        → Ensures Keeps (top_up_validator c p sender now accepted)
    unfolding top_up_validator
    top_up-HasShares sender now accepted =
        bind-Ensures (guard (sender == c.operator) not_operator) _ λ _ _. off_stage funding _ refl

    receive-HasShares :
        (sender value now : ℕ)
        → Ensures Keeps (receive_transfer c (receive_value p value) sender value now)
    unfolding receive_transfer
    receive-HasShares sender value now =
        let e1 : is_stage p.state funding ≡ false = rw v.stage refl in
        let e2 : is_stage p.state topped_up ≡ true = rw v.stage refl in
        rw (receive_transfer, e1, e2)
          (returned (record { stage = v.stage; credits = v.credits; all_credits = v.all_credits }))

    refund-HasShares :
        (sender recipient : ℕ) (taken : Bool) → Ensures Keeps (refund_to c p sender recipient taken)
    unfolding refund_to
    refund-HasShares sender recipient taken =
        let amount = get p.refundable_wei_of sender in
        bind-Ensures (validate_recipient c recipient) _ λ _ _.
          bind-Ensures (refuse_if (amount == 0) nothing_to_refund) _ λ _ _.
            bind-Ensures (checked_sub p.total_refundable_wei amount) _ λ outstanding _.
              bind-Ensures (checked (p.total_refunded_wei + amount)) _ λ paid_back _.
                let written = record p {
                  refundable_wei_of = set p.refundable_wei_of sender 0;
                  total_refundable_wei = outstanding;
                  total_refunded_wei = paid_back;
                } in
                bind-Ensures (send_eth written amount taken) _ λ after sent.
                  with_snapshot-HasShares after _ (
                    Ensures-sound
                      (send_eth-HasShares written amount taken (record {
                        stage = v.stage;
                        credits = v.credits;
                        all_credits = v.all_credits;
                      }))
                      after sent)

    claim-HasShares :
        (sender recipient : ℕ) (taken : Bool) → Ensures Keeps (claim_to c p sender recipient taken)
    unfolding claim_to
    claim-HasShares sender recipient taken =
        bind-Ensures (guard (is_stage p.state topped_up) invalid_state) _ λ _ _.
          bind-Ensures (validate_recipient c recipient) _ λ _ _.
            bind-Ensures (claimable p sender) _ λ amount _.
              bind-Ensures (refuse_if (amount == 0) nothing_to_claim) _ λ _ _.
                bind-Ensures (checked (get p.claimed_wei_of sender + amount)) _ λ by_sender _.
                  bind-Ensures (checked (p.total_claimed_wei + amount)) _ λ by_all _.
                    let written = record p {
                      claimed_wei_of = set p.claimed_wei_of sender by_sender;
                      total_claimed_wei = by_all;
                    } in
                    bind-Ensures (send_eth written amount taken) _ λ after sent.
                      with_snapshot-HasShares after _ (
                        Ensures-sound
                          (send_eth-HasShares written amount taken (record {
                            stage = v.stage;
                            credits = v.credits;
                            all_credits = v.all_credits;
                          }))
                          after sent)

    exit-HasShares :
        (sender value now max_fee : ℕ) (answers : ExitAnswers)
        → Ensures Keeps (request_exit c (receive_value p value) sender value now max_fee answers)
    unfolding request_exit
    exit-HasShares sender value now max_fee answers =
        bind-Ensures (guard (length p.committed_pubkey == pubkey_length) invalid_state) _ λ _ _.
          bind-Ensures (guard (can_request_exit c (receive_value p value) sender) not_participant) _
            λ _ _. bind-Ensures (read_fee answers.fee) _ λ fee _.
              bind-Ensures (refuse_if (ltb max_fee fee) exit_fee_too_high) _ λ _ _.
                bind-Ensures (refuse_if (ltb value fee) insufficient_exit_fee) _ λ _ _.
                  bind-Ensures
                    (guard (leb fee (p.balance + value) && answers.accepted) exit_request_failed) _
                    λ _ _. bind-Ensures (checked (p.exit_request_attempt_count + 1)) _ λ attempts _.
                      let counted = record p {
                        balance = p.balance + value - fee;
                        exit_request_attempt_count = attempts;
                        last_exit_request_fee_paid = fee;
                        last_exit_request_at = now;
                      } in
                      bind-Ensures (return_change counted (value - fee) answers.change_taken) _
                        λ after sent. returned (
                          Ensures-sound
                            (return_change-HasShares counted (value - fee) answers.change_taken
                              (record {
                                stage = v.stage;
                                credits = v.credits;
                                all_credits = v.all_credits;
                              }))
                            after sent)

    exec-HasShares : (keccak256 : List ℕ → ℕ) (m : Message) → Ensures Keeps (exec keccak256 c p m)
    unfolding exec
    exec-HasShares keccak256 (commit_and_predeposit_call sender value d accepted) =
        commit-HasShares keccak256 sender value d accepted
    exec-HasShares keccak256 (open_funding_attempt_call sender now participants targets) =
        open-HasShares sender now participants targets
    exec-HasShares keccak256 (fund_call sender value now) = fund-HasShares value sender now
    exec-HasShares keccak256 (transfer sender value now) = receive-HasShares sender value now
    exec-HasShares keccak256 (close_call now) = close-HasShares now
    exec-HasShares keccak256 (top_up_call sender now accepted) =
        top_up-HasShares sender now accepted
    exec-HasShares keccak256 (request_exit_call sender value now max_fee answers) =
        exit-HasShares sender value now max_fee answers
    exec-HasShares keccak256 (refund_to_call sender recipient taken) =
        refund-HasShares sender recipient taken
    exec-HasShares keccak256 (claim_to_call sender recipient taken) =
        claim-HasShares sender recipient taken
    exec-HasShares keccak256 (forced value) =
        returned (record { stage = v.stage; credits = v.credits; all_credits = v.all_credits })

shares_kept :
    (keccak256 : List ℕ → ℕ) (c : PoolConfig) (credited : Balances) (total_credited : ℕ)
    (p q : Pool)
    → Leads keccak256 c p q
    → HasShares credited total_credited p
    → HasShares credited total_credited q
shares_kept keccak256 c credited total_credited p q none v = v
shares_kept keccak256 c credited total_credited p q (then_call {q = r} {es} m step rest) v =
    shares_kept keccak256 c credited total_credited r q rest
      (Ensures-sound (exec-HasShares credited total_credited c p v keccak256 m) (r, es) step)

-- Once a pool is topped up it stays topped up, and no sequence of calls changes anybody's credit or
-- the total of the credits.
pub Leads-HasShares :
    (keccak256 : List ℕ → ℕ) (c : PoolConfig) (p q : Pool)
    → Leads keccak256 c p q
    → p.state ≡ topped_up
    → HasShares p.credited_wei_of p.total_credited_wei q
Leads-HasShares keccak256 c p q calls stage =
    shares_kept keccak256 c p.credited_wei_of p.total_credited_wei p q calls
      (record { stage = stage; credits = refl; all_credits = refl })
