-- ===== src/Pool/Payout.antt =====
-- Funding, exit requests and payouts (contracts/ValidatorFundingPool.sol, `receive`, `_fund`,
-- `requestExit`, `refundTo`, `claimTo`), and the calls of the contract. Ether is sent after the
-- storage is written, so what the recipient does with it is a call after this one.
use validator_funding_pool.Base.{
  ℕ, ◌+◌, ◌-◌, Bool, true, false, not, ◌&&◌, ◌||◌, [], ◌∷◌, Option, none, some, ltb, leb, ◌==◌,
  length,
}
use validator_funding_pool.Failure.{
  Result, ok, err, ◌>>=◌, ◌>>◌, guard, refuse_if, invalid_state, not_participant, zero_amount,
  funding_closed, funding_cap_exceeded, exit_fee_read_failed, exit_fee_too_high,
  insufficient_exit_fee, exit_request_failed, nothing_to_refund, nothing_to_claim,
}
use validator_funding_pool.Pool.Map.{get, set}
use validator_funding_pool.Pool.{
  pubkey_length, funding, topped_up, PoolConfig, Pool, participant_funded, refunded,
  eth_received_via_call, claimed, exit_request_submitted, Outcome, checked, checked_sub, is_stage,
  is_participant, funding_remaining_wei_of, claimable, with_snapshot, validate_recipient, send_eth,
}

-- `_fund`, where `p` has the value of the call already.
unfoldable pub fund : PoolConfig → Pool → (sender value now : ℕ) → Result Outcome
fund c p sender value now = do
  guard (is_stage p.state funding) invalid_state
  refuse_if (ltb p.funding_deadline now) funding_closed
  guard (is_participant p sender) not_participant
  refuse_if (value == 0) zero_amount
  remaining ← funding_remaining_wei_of c p sender
  refuse_if (ltb remaining value) funding_cap_exceeded
  new_funded ← checked (get p.active_funded_wei_of sender + value)
  new_total ← checked (p.total_active_funded_wei + value)
  with_snapshot
      (record p {
        active_funded_wei_of = set p.active_funded_wei_of sender new_funded;
        total_active_funded_wei = new_total;
      })
      (participant_funded p.funding_attempt sender value new_funded new_total ∷ [])

-- `receive()`, a transfer without data.
unfoldable pub receive_transfer : PoolConfig → Pool → (sender value now : ℕ) → Result Outcome
receive_transfer c p sender value now = elim (is_stage p.state funding) [
  | true ↦ fund c p sender value now
  | false ↦ elim (is_stage p.state topped_up) [
    | true ↦ ok (p, eth_received_via_call sender value ∷ [])
    | false ↦ err invalid_state
  ]
]

-- What the withdrawal request contract answers: the fee, if it can be read, and whether the request is
-- accepted; and whether the caller takes the change.
pub record ExitAnswers : Type 0 where
  pub fee : Option ℕ
  pub accepted : Bool
  pub change_taken : Bool

abbrev pub read_fee : Option ℕ → Result ℕ
read_fee none = err exit_fee_read_failed
read_fee (some fee) = ok fee

abbrev pub can_request_exit : PoolConfig → Pool → ℕ → Bool
can_request_exit c p account = account == c.operator || not (get p.credited_wei_of account == 0)

-- What is left of the value goes back to the caller.
abbrev pub return_change : Pool → (change : ℕ) (taken : Bool) → Result Pool
return_change p change taken = elim (change == 0) [ true ↦ ok p | false ↦ send_eth p change taken ]

-- `p` has the value of the call already.
unfoldable pub request_exit :
    PoolConfig → Pool → (sender value now max_fee : ℕ) → ExitAnswers → Result Outcome
request_exit c p sender value now max_fee answers = do
  guard (length p.committed_pubkey == pubkey_length) invalid_state
  guard (can_request_exit c p sender) not_participant
  fee ← read_fee answers.fee
  refuse_if (ltb max_fee fee) exit_fee_too_high
  refuse_if (ltb value fee) insufficient_exit_fee
  guard (leb fee p.balance && answers.accepted) exit_request_failed
  attempts ← checked (p.exit_request_attempt_count + 1)
  let counted = record p {
    balance = p.balance - fee;
    exit_request_attempt_count = attempts;
    last_exit_request_fee_paid = fee;
    last_exit_request_at = now;
  }
  after ← return_change counted (value - fee) answers.change_taken
  ok (after, exit_request_submitted p.committed_pubkey_hash p.committed_pubkey fee attempts ∷ [])

unfoldable pub refund_to :
    PoolConfig → Pool → (sender recipient : ℕ) (taken : Bool) → Result Outcome
refund_to c p sender recipient taken = do
  validate_recipient c recipient
  let amount = get p.refundable_wei_of sender
  refuse_if (amount == 0) nothing_to_refund
  outstanding ← checked_sub p.total_refundable_wei amount
  paid_back ← checked (p.total_refunded_wei + amount)
  after ←
      send_eth
        (record p {
          refundable_wei_of = set p.refundable_wei_of sender 0;
          total_refundable_wei = outstanding;
          total_refunded_wei = paid_back;
        })
        amount taken
  with_snapshot after (refunded sender recipient amount ∷ [])

unfoldable pub claim_to : PoolConfig → Pool → (sender recipient : ℕ) (taken : Bool) → Result Outcome
claim_to c p sender recipient taken = do
  guard (is_stage p.state topped_up) invalid_state
  validate_recipient c recipient
  amount ← claimable p sender
  refuse_if (amount == 0) nothing_to_claim
  by_sender ← checked (get p.claimed_wei_of sender + amount)
  by_all ← checked (p.total_claimed_wei + amount)
  after ←
      send_eth
        (record p {
          claimed_wei_of = set p.claimed_wei_of sender by_sender;
          total_claimed_wei = by_all;
        })
        amount taken
  with_snapshot after (claimed sender recipient amount ∷ [])
