-- ===== src/Forwarder/Logs.antt =====
-- The pool's events in the logs of a block, as the `sweep` command reads them
-- (scripts/lib/common.ts, `decodePoolOutflows`; contracts/ValidatorFundingPool.sol).
use validator_funding_pool.Base.{
  ℕ, ◌+◌, ◌≡◌, refl, ◌∙◌, true, List, [], ◌∷◌, ◌++◌, Option, none, some, arith, map, foldl,
}
use validator_funding_pool.Decimal.{Text}
use validator_funding_pool.Text.{same_hex}
use validator_funding_pool.Receipt.{
  ObservedLog, SweptEvent, SweepBalances, OutflowEvent, payout, note_outflow, outflow_amount,
  decode_pool_outflows, total_outflow, assert_sweep_was_credited,
}
use validator_funding_pool.Receipt
use validator_funding_pool.Pool.{
  PoolConfig, PoolEvent, claimed, refunded, validator_top_up_submitted, validator_predeposited,
  funding_attempt_opened, participant_funded, refund_credited, funding_attempt_closed,
  pool_topped_up, eth_received_via_call, accounting_snapshot, exit_request_submitted,
}
use validator_funding_pool.Pool.Call.Outflows.{amount_out, out_of}

-- How strings are written: addresses, hashes and bytes.
pub record Writing : Type 0 where
  pub address : ℕ → Text
  pub hash : ℕ → Text
  pub bytes : List ℕ → Text

-- What viem decodes an event of the pool to with `POOL_OUTFLOW_EVENTS_ABI`.
abbrev pub outflow_event : Writing → PoolEvent → Option OutflowEvent
outflow_event w (claimed participant recipient amount) = some (
    payout (record {
      name = Receipt.claimed;
      participant = w.address participant;
      recipient = w.address recipient;
      amount = amount;
    }))
outflow_event w (refunded participant recipient amount) = some (
    payout (record {
      name = Receipt.refunded;
      participant = w.address participant;
      recipient = w.address recipient;
      amount = amount;
    }))
outflow_event w (validator_top_up_submitted pubkey_hash pubkey root) =
    some (Receipt.validator_top_up_submitted (w.hash pubkey_hash) (w.bytes pubkey) (w.hash root))
outflow_event w _ = none

-- A log of the pool carries the pool's address and decodes to its event.
pub record WritesOutflows (w : Writing) (c : PoolConfig) (log_of : PoolEvent → ObservedLog)
    (decode : ObservedLog → Option OutflowEvent) : Type 0 where
  pub from_pool : (e : PoolEvent) → same_hex (log_of e).address (w.address c.self) ≡ true
  pub decoded : (e : PoolEvent) → decode (log_of e) ≡ outflow_event w e

total_outflow-append :
    (start : ℕ) (xs : List ℕ) (n : ℕ)
    → foldl (λ (sum amount : ℕ). sum + amount) start (xs ++ (n ∷ []))
      ≡ foldl (λ (sum amount : ℕ). sum + amount) start xs + n
total_outflow-append start [] n = refl
total_outflow-append start (x ∷ xs) n = total_outflow-append (start + x) xs n

module _ (w : Writing) (c : PoolConfig) (log_of : PoolEvent → ObservedLog)
    (decode : ObservedLog → Option OutflowEvent) (logs : WritesOutflows w c log_of decode) where
  abbrev amount_in : Option OutflowEvent → ℕ
  amount_in none = 0
  amount_in (some e) = outflow_amount decode (w.address c.self) e

  amount_in_lem : (e : PoolEvent) → amount_in (outflow_event w e) ≡ amount_out e
  amount_in_lem (claimed participant recipient amount) = refl
  amount_in_lem (refunded participant recipient amount) = refl
  amount_in_lem (validator_top_up_submitted pubkey_hash pubkey root) = refl
  amount_in_lem (validator_predeposited pubkey_hash pubkey predeposit_root top_up_root) = refl
  amount_in_lem (funding_attempt_opened attempt deadline) = refl
  amount_in_lem (participant_funded attempt participant amount own all) = refl
  amount_in_lem (refund_credited attempt participant amount own refundable) = refl
  amount_in_lem (funding_attempt_closed attempt) = refl
  amount_in_lem pool_topped_up = refl
  amount_in_lem (eth_received_via_call sender amount) = refl
  amount_in_lem (accounting_snapshot s attempt held active refundable paid credited taken gross) =
      refl
  amount_in_lem (exit_request_submitted pubkey_hash pubkey fee attempt) = refl

  note_outflow_lem :
      (outflows : List ℕ) (e : PoolEvent)
      → total_outflow (note_outflow decode (w.address c.self) outflows (log_of e))
        ≡ total_outflow outflows + amount_out e
  unfolding note_outflow total_outflow
  note_outflow_lem outflows e =
      rw (note_outflow, logs.from_pool e, logs.decoded e)
        (added (outflow_event w e) ∙ (cc (amount_in_lem e)))
    where
      added :
          (o : Option OutflowEvent)
          → total_outflow (elim o as (λ _. List ℕ) [
            | none ↦ outflows
            | some x ↦ outflows ++ (outflow_amount decode (w.address c.self) x ∷ [])
          ])
            ≡ total_outflow outflows + amount_in o
      added none = omega arith
      added (some x) = total_outflow-append 0 outflows (outflow_amount decode (w.address c.self) x)

  outflows_lem :
      (es : List PoolEvent) (outflows : List ℕ)
      → total_outflow (foldl (note_outflow decode (w.address c.self)) outflows (map log_of es))
        ≡ total_outflow outflows + out_of es
  outflows_lem [] outflows = omega arith
  outflows_lem (e ∷ es) outflows = omega (
    arith,
    outflows_lem es (note_outflow decode (w.address c.self) outflows (log_of e)),
    note_outflow_lem outflows e,
  )

  -- The outflows that the `sweep` command reads of a block are all that the events say.
  pub decode_pool_outflows-out_of :
      (es : List PoolEvent)
      → total_outflow (decode_pool_outflows decode (w.address c.self) (map log_of es)) ≡ out_of es
  unfolding decode_pool_outflows total_outflow
  decode_pool_outflows-out_of es = omega (arith, outflows_lem es [])
