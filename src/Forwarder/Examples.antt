-- ===== src/Forwarder/Examples.antt =====
-- A sweep between a claim and a second claim of the same block
-- (contracts/FeeRecipientForwarder.sol).
use validator_funding_pool.Base.{
  ℕ, ◌+◌, ◌*◌, ◌≡◌, refl, true, List, [], ◌∷◌, ◌++◌, Option, none, some, arith, map,
}
use validator_funding_pool.Decimal.{Text}
use validator_funding_pool.Text.{same_hex, same_text, to_lower_case, lower}
use validator_funding_pool.Failure.{ok}
use validator_funding_pool.Receipt.{
  ObservedLog, SweptEvent, OutflowEvent, payout, decode_pool_outflows, assert_sweep_was_credited,
}
use validator_funding_pool.Receipt
use validator_funding_pool.Pool.{
  ether, Pool, PoolEvent, validator_predeposited, funding_attempt_opened, participant_funded,
  refund_credited, funding_attempt_closed, refunded, validator_top_up_submitted, pool_topped_up,
  eth_received_via_call, accounting_snapshot, claimed, exit_request_submitted, receive_value,
  claimable, gross_pool_proceeds, with_snapshot,
}
use validator_funding_pool.Pool.Map.{get, set}
use validator_funding_pool.Pool.Payout.{claim_to, receive_transfer}
use validator_funding_pool.Pool.Call.{exec, claim_to_call}
use validator_funding_pool.Pool.Trace.{config, hash, earning_pool}
use validator_funding_pool.Forwarder.{Forwarder, Sweep, sweep}
use validator_funding_pool.Forwarder.Logs.{Writing, outflow_event, WritesOutflows}
use validator_funding_pool.Forwarder.Block.{
  Runs, nothing, call_then, WritesSwept, sweep-assert_sweep_was_credited,
}

abbrev forwarder : Forwarder
forwarder = record { address = 500; balance = 2 * ether }

abbrev writing : Writing
writing = record { address = λ a. (a + 1000) ∷ []; hash = λ h. h ∷ []; bytes = λ b. b }

-- The first code of a payload tells the events apart.
abbrev payload_of : PoolEvent → Text
payload_of (claimed participant recipient amount) = participant ∷ recipient ∷ amount ∷ []
payload_of (refunded participant recipient amount) = participant ∷ recipient ∷ amount ∷ 0 ∷ []
payload_of (validator_top_up_submitted pubkey_hash pubkey root) =
    pubkey_hash ∷ root ∷ 0 ∷ 0 ∷ 0 ∷ pubkey
payload_of _ = []

abbrev log_of : PoolEvent → ObservedLog
log_of e = record { address = writing.address 1000; topics = []; payload = payload_of e }

abbrev event_in : Text → Option OutflowEvent
event_in (participant ∷ recipient ∷ amount ∷ []) = some (
    payout (record {
      name = Receipt.claimed;
      participant = writing.address participant;
      recipient = writing.address recipient;
      amount = amount;
    }))
event_in (participant ∷ recipient ∷ amount ∷ _ ∷ []) = some (
    payout (record {
      name = Receipt.refunded;
      participant = writing.address participant;
      recipient = writing.address recipient;
      amount = amount;
    }))
event_in (pubkey_hash ∷ root ∷ _ ∷ _ ∷ _ ∷ pubkey) = some (
    Receipt.validator_top_up_submitted (writing.hash pubkey_hash) (writing.bytes pubkey)
      (writing.hash root))
event_in _ = none

abbrev decode_out : ObservedLog → Option OutflowEvent
decode_out log = event_in log.payload

payload_lem : (e : PoolEvent) → event_in (payload_of e) ≡ outflow_event writing e
payload_lem (claimed participant recipient amount) = refl
payload_lem (refunded participant recipient amount) = refl
payload_lem (validator_top_up_submitted pubkey_hash pubkey root) = refl
payload_lem (validator_predeposited pubkey_hash pubkey predeposit_root top_up_root) = refl
payload_lem (funding_attempt_opened attempt deadline) = refl
payload_lem (participant_funded attempt participant amount own all) = refl
payload_lem (refund_credited attempt participant amount own refundable) = refl
payload_lem (funding_attempt_closed attempt) = refl
payload_lem pool_topped_up = refl
payload_lem (eth_received_via_call sender amount) = refl
payload_lem (accounting_snapshot s attempt held active refundable paid credited taken gross) = refl
payload_lem (exit_request_submitted pubkey_hash pubkey fee attempt) = refl

outflows-WritesOutflows : WritesOutflows writing config log_of decode_out
unfolding same_hex same_text to_lower_case lower
outflows-WritesOutflows = record { from_pool = λ e. refl; decoded = payload_lem }

-- The topic marks the forwarder's event.
abbrev swept_log : (caller amount : ℕ) → ObservedLog
swept_log caller amount = record {
  address = writing.address 500;
  topics = [] ∷ [];
  payload = caller ∷ amount ∷ [];
}

abbrev swept_in : List Text → Text → Option SweptEvent
swept_in (_ ∷ _) (caller ∷ amount ∷ []) =
    some (record { caller = writing.address caller; amount = amount })
swept_in _ _ = none

abbrev decode : ObservedLog → Option SweptEvent
decode log = swept_in log.topics log.payload

swept-WritesSwept : WritesSwept writing forwarder log_of swept_log decode
unfolding same_hex same_text to_lower_case lower
swept-WritesSwept = record {
  from_forwarder = λ caller amount. refl;
  decoded = λ caller amount. refl;
  others = λ e. refl;
}

abbrev half_claimed_pool : Pool
half_claimed_pool = record earning_pool {
  claimed_wei_of = (8, 15 * ether) ∷ [];
  total_claimed_wei = 15 * ether;
  balance = ether;
}

abbrev claim_events : List PoolEvent
claim_events =
    claimed 8 9 (15 * ether)
    ∷ accounting_snapshot half_claimed_pool.state 1 ether (31 * ether) 0 0 (32 * ether) (15 * ether)
        (16 * ether)
    ∷ []

claimed_first : Runs hash config earning_pool (claim_events ++ []) half_claimed_pool
unfolding exec claim_to claimable gross_pool_proceeds with_snapshot get set
claimed_first = call_then (claim_to_call 8 9 true) refl nothing

abbrev done : Sweep
done = record {
  forwarder = record forwarder { balance = 0 };
  pool = (receive_value half_claimed_pool (2 * ether), eth_received_via_call 500 (2 * ether) ∷ []);
  caller = 7;
  amount = 2 * ether;
}

sweep-assert_sweep_was_credited_example :
    assert_sweep_was_credited decode
      (writing.address 500)
      (writing.address 7)
      (swept_log 7 (2 * ether) ∷ map log_of (eth_received_via_call 500 (2 * ether) ∷ []))
      (record {
        forwarder_before = 2 * ether;
        pool_before = 16 * ether;
        pool_after = 3 * ether;
        same_block_outflows = decode_pool_outflows decode_out (writing.address 1000) (
            map log_of
              ((claim_events ++ []) ++ (eth_received_via_call 500 (2 * ether) ∷ []) ++ []));
      })
    ≡ ok tt
unfolding sweep receive_transfer
sweep-assert_sweep_was_credited_example =
    sweep-assert_sweep_was_credited hash config writing forwarder log_of swept_log decode decode_out
      earning_pool half_claimed_pool (receive_value half_claimed_pool (2 * ether))
      (claim_events ++ []) [] 7 90 (2 * ether) done swept-WritesSwept outflows-WritesOutflows
      claimed_first refl nothing (omega arith)
