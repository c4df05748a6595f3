-- ===== src/Receipt.antt =====
-- What a mined transaction's receipt proves (scripts/lib/common.ts): the checks of the logs of `fund`,
-- `claim`, `refund` and `sweep`. viem's `decodeEventLog` is a parameter for each list of events;
-- `none` is a log that it cannot decode.
pub mod OnlyOne
pub mod Funding
pub mod Payout
pub mod Sweep
mod Examples
use validator_funding_pool.Base.{
  ℕ, ◌+◌, ◌*◌, Bool, true, false, ◌&&◌, ◌||◌, List, [], ◌∷◌, ◌++◌, Option, none, some, ltb, ◌==◌,
  if◌then◌else◌, length, foldl,
}
use validator_funding_pool.Base.Int.{ℤ, pos, ◌+ℤ◌, ◌-ℤ◌, ltb_ℤ}
use validator_funding_pool.Decimal.{Text}
use validator_funding_pool.Text.{same_hex}
use validator_funding_pool.Failure.{
  Failure, Result, ok, err, ◌>>=◌, ◌>>◌, guard, refuse_if, credited_as_proceeds, nothing_credited,
  other_credit, payout_missing, payout_redirected, swept_missing, swept_partly, sweep_not_landed,
}

-- `31_000_000_000n * 1_000_000_000n`, the value of the top-up deposit.
abbrev pub top_up_wei : ℕ
top_up_wei = 31_000_000_000 * 1_000_000_000

pub record ObservedLog : Type 0 where
  pub address : Text
  pub topics : List Text
  pub payload : Text

-- `POOL_FUNDING_EVENTS_ABI`
pub data FundingEvent : Type 0 where
  participant_funded :
      (attempt : ℕ) (participant : Text) (amount participant_total attempt_total : ℕ) → FundingEvent
  eth_received_via_call : (sender : Text) (amount : ℕ) → FundingEvent

-- `PayoutEventName`
pub data PayoutName : Type 0 where
  claimed refunded : PayoutName

-- `POOL_PAYOUT_EVENTS_ABI`: both events have the same arguments.
pub record PayoutEvent : Type 0 where
  pub name : PayoutName
  pub participant : Text
  pub recipient : Text
  pub amount : ℕ

-- `POOL_OUTFLOW_EVENTS_ABI`
pub data OutflowEvent : Type 0 where
  payout : PayoutEvent → OutflowEvent
  validator_top_up_submitted : (pubkey_hash pubkey root : Text) → OutflowEvent

-- `FORWARDER_SWEPT_EVENT_ABI`
pub record SweptEvent : Type 0 where
  pub caller : Text
  pub amount : ℕ

pub record SweepBalances : Type 0 where
  pub forwarder_before : ℕ
  pub pool_before : ℕ
  pub pool_after : ℕ
  pub same_block_outflows : List ℕ

abbrev pub same_payout_name : PayoutName → PayoutName → Bool
same_payout_name claimed claimed = true
same_payout_name refunded refunded = true
same_payout_name _ _ = false

-- The event of a log, if the contract at `address` emitted it and it can be decoded.
abbrev pub event_of {ℓ} : {E : Type ℓ} → (ObservedLog → Option E) → Text → ObservedLog → Option E
event_of decode address log = if same_hex log.address address then decode log else none

-- `xs.push(x)` where the test holds.
abbrev pub push_if {ℓ} : {A : Type ℓ} → Bool → A → List A → List A
push_if b x xs = if b then xs ++ (x ∷ []) else xs

module _ (decode : ObservedLog → Option FundingEvent) (pool signer : Text) where
  -- One round of the loop, on the amounts credited and those accepted as proceeds.
  unfoldable pub note_funding : List ℕ × List ℕ → ObservedLog → List ℕ × List ℕ
  note_funding (credited, accepted) log = elim (event_of decode pool log) [
    | none ↦ (credited, accepted)
    | some (participant_funded attempt participant amount participant_total attempt_total) ↦
        (push_if (same_hex participant signer) amount credited, accepted)
    | some (eth_received_via_call sender amount) ↦
        (credited, push_if (same_hex sender signer) amount accepted)
  ]

  abbrev pub funding_verdict : ℕ → List ℕ × List ℕ → Result (Unit {0})
  funding_verdict amount (n ∷ [], accepted) =
      if n == amount
      then ok tt
      else elim accepted [ [] ↦ err other_credit | _ ∷ _ ↦ err credited_as_proceeds ]
  funding_verdict amount (credited, _ ∷ _) = err credited_as_proceeds
  funding_verdict amount ([], []) = err nothing_credited
  funding_verdict amount (_ ∷ _ ∷ _, []) = err other_credit

  unfoldable pub assert_funding_was_credited : List ObservedLog → ℕ → Result (Unit {0})
  unfolding note_funding
  assert_funding_was_credited logs amount =
      funding_verdict amount (foldl note_funding ([], []) logs)

module _ (decode : ObservedLog → Option PayoutEvent) (pool : Text) where
  -- One round of the loop, on the recipients and amounts of the payouts.
  unfoldable pub note_payout : PayoutName → Text → List (Text × ℕ) → ObservedLog → List (Text × ℕ)
  note_payout name participant payouts log = elim (event_of decode pool log) [
    | none ↦ payouts
    | some e ↦
        push_if (same_payout_name e.name name && same_hex e.participant participant)
          (e.recipient, e.amount) payouts
  ]

  abbrev pub payout_verdict : Text → List (Text × ℕ) → Result (Unit {0})
  payout_verdict intended ((recipient, amount) ∷ []) =
      guard (same_hex recipient intended) payout_redirected
  payout_verdict intended [] = err payout_missing
  payout_verdict intended (_ ∷ _ ∷ _) = err payout_missing

  -- The amount that was printed before is only reported on, and decides nothing.
  unfoldable pub assert_payout_reached_recipient :
      List ObservedLog → PayoutName → (participant intended_recipient : Text) → Result (Unit {0})
  unfolding note_payout
  assert_payout_reached_recipient logs name participant intended_recipient =
      payout_verdict intended_recipient (foldl (note_payout name participant) [] logs)

-- `decodePoolOutflows`, the amounts alone.
module _ (decode : ObservedLog → Option OutflowEvent) (pool : Text) where
  abbrev pub outflow_amount : OutflowEvent → ℕ
  outflow_amount (payout e) = e.amount
  outflow_amount (validator_top_up_submitted pubkey_hash pubkey root) = top_up_wei

  unfoldable pub note_outflow : List ℕ → ObservedLog → List ℕ
  note_outflow outflows log = elim (event_of decode pool log) [
    | none ↦ outflows
    | some e ↦ outflows ++ (outflow_amount e ∷ [])
  ]

  unfoldable pub decode_pool_outflows : List ObservedLog → List ℕ
  unfolding note_outflow
  decode_pool_outflows logs = foldl note_outflow [] logs

unfoldable pub total_outflow : List ℕ → ℕ
total_outflow outflows = foldl (λ (sum amount : ℕ). sum + amount) 0 outflows

module _ (decode : ObservedLog → Option SweptEvent) (forwarder signer : Text) where
  unfoldable pub note_swept : List ℕ → ObservedLog → List ℕ
  note_swept amounts log = elim (event_of decode forwarder log) [
    | none ↦ amounts
    | some e ↦ push_if (same_hex e.caller signer) e.amount amounts
  ]

  unfoldable pub swept_amounts : List ObservedLog → List ℕ
  unfolding note_swept
  swept_amounts logs = foldl note_swept [] logs

  unfoldable pub assert_sweep_was_credited : List ObservedLog → SweepBalances → Result (Unit {0})
  assert_sweep_was_credited logs balances = elim (swept_amounts logs) [
    | swept ∷ [] ↦ do
      refuse_if (ltb swept balances.forwarder_before) swept_partly
      let credited =
          pos balances.pool_after
          -ℤ pos balances.pool_before
          +ℤ pos (total_outflow balances.same_block_outflows)
      refuse_if (ltb_ℤ credited (pos balances.forwarder_before)) sweep_not_landed
      ok tt
    | _ ↦ err swept_missing
  ]
