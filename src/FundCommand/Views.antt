-- ===== src/FundCommand/Views.antt =====
-- What the `fund` command reads of the pool contract and what it gets back
-- (scripts/fund.ts, contracts/ValidatorFundingPool.sol). `text` writes an address as a string.
use validator_funding_pool.Base.{ℕ, Option, none, some, if◌then◌else◌, map}
use validator_funding_pool.Decimal.{Text}
use validator_funding_pool.Receipt.{FundingEvent}
use validator_funding_pool.Receipt
use validator_funding_pool.Pins.{FundingState}
use validator_funding_pool.FundCommand.{ReviewedPool, Payment}
use validator_funding_pool.Pool.Map.{get}
use validator_funding_pool.Pool.{
  Stage, uninitialized, predeposited, funding, topped_up, PoolConfig, Pool, PoolEvent,
  participant_funded, eth_received_via_call,
}
use validator_funding_pool.Pool.Call.{Message, fund_call, transfer}

-- `state()`: the number of the enumerator.
abbrev pub stage_number : Stage → ℕ
stage_number uninitialized = 0
stage_number predeposited = 1
stage_number funding = 2
stage_number topped_up = 3

module _ (text : ℕ → Text) (c : PoolConfig) where
  abbrev pub reviewed_pool : Pool → ReviewedPool
  reviewed_pool p = record {
    funding_attempt = p.funding_attempt;
    funding_deadline = p.funding_deadline;
    operator = text c.operator;
    listed =
        map (λ a. record { participant = text a; target = get p.funding_target_wei_of a })
          p.participants;
  }

  abbrev pub funding_state : Pool → (caller remaining timestamp : ℕ) → FundingState
  funding_state p caller remaining timestamp = record {
    pool = text c.self;
    state = stage_number p.state;
    funding_attempt = p.funding_attempt;
    funding_deadline = p.funding_deadline;
    remaining = remaining;
    caller_target_wei = get p.funding_target_wei_of caller;
    operator_target_wei = get p.funding_target_wei_of c.operator;
    timestamp = timestamp;
  }

-- The transaction of a payment.
abbrev pub message_of : Payment → (sender now : ℕ) → Message
message_of payment sender now =
    if payment.via_transfer
    then transfer sender payment.amount now
    else fund_call sender payment.amount now

-- What `decodeEventLog` with `POOL_FUNDING_EVENTS_ABI` makes of an event of the pool.
abbrev pub funding_event : (text : ℕ → Text) → PoolEvent → Option FundingEvent
funding_event text (participant_funded attempt participant amount participant_total attempt_total) =
    some
      (Receipt.participant_funded attempt (text participant) amount participant_total attempt_total)
funding_event text (eth_received_via_call sender amount) =
    some (Receipt.eth_received_via_call (text sender) amount)
funding_event text _ = none
