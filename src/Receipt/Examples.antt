-- ===== src/Receipt/Examples.antt =====
-- A pool, a forwarder and their logs, on which the receipts' checks are run.
use validator_funding_pool.Base.{
  ℕ, ◌+◌, ◌≤◌, ◌≡◌, refl, true, List, [], ◌∷◌, Option, none, some, ◌==◌, if◌then◌else◌,
}
use validator_funding_pool.Base.Int.{◌+ℤ◌, ◌-ℤ◌}
use validator_funding_pool.Decimal.{Text}
use validator_funding_pool.Text.{codes, same_hex}
use validator_funding_pool.Receipt.{
  ObservedLog, FundingEvent, participant_funded, eth_received_via_call, claimed, PayoutEvent,
  SweptEvent, SweepBalances, assert_funding_was_credited, assert_payout_reached_recipient,
  assert_sweep_was_credited, swept_amounts, total_outflow,
}
use validator_funding_pool.Receipt.OnlyOne.{OnlyOne}
use validator_funding_pool.Receipt.Funding.{Credits, assert_funding_was_credited_iff}
use validator_funding_pool.Receipt.Payout.{Pays, assert_payout_reached_recipient_iff}
use validator_funding_pool.Receipt.Sweep.{Sweeps, assert_sweep_was_credited_iff}

abbrev pool : Text
pool = codes "0xAb"

abbrev signer : Text
signer = codes "0xcd"

abbrev other : Text
other = codes "0xef"

-- A log of the contract at an address, whose payload has one number.
abbrev log_of : Text → ℕ → ObservedLog
log_of address n = record { address = address; topics = []; payload = n ∷ [] }

-- An odd payload is a credit of the signer, the payload 2 proceeds of the signer.
abbrev decode_funding : ObservedLog → Option FundingEvent
decode_funding log = elim log.payload [
  | [] ↦ none
  | n ∷ _ ↦
      if n == 2
      then some (eth_received_via_call (codes "0xCD") 5)
      else some (participant_funded 1 (codes "0xCD") 5 5 5)
]

-- The pool's log counts, and the same log of another contract does not.
abbrev credited_logs : List ObservedLog
credited_logs = log_of other 1 ∷ log_of (codes "0xaB") 1 ∷ log_of pool 2 ∷ []

assert_funding_was_credited_iff_example :
    OnlyOne (Credits decode_funding pool signer) credited_logs 5
unfolding assert_funding_was_credited same_hex
assert_funding_was_credited_iff_example =
    (assert_funding_was_credited_iff decode_funding pool signer credited_logs 5).0 refl

abbrev proceeds_log : ObservedLog
proceeds_log = log_of pool 2

-- The payload is the last character of the recipient.
abbrev decode_payout : ObservedLog → Option PayoutEvent
decode_payout log = some (record {
  name = claimed;
  participant = codes "0xCD";
  recipient = b'0' ∷ b'x' ∷ log.payload;
  amount = 7;
})

abbrev payout_logs : List ObservedLog
payout_logs = log_of other b'1' ∷ log_of pool b'A' ∷ []

assert_payout_reached_recipient_iff_example :
    (p : Text × ℕ) × OnlyOne (Pays decode_payout pool claimed signer) payout_logs p
    × (same_hex p.0 (codes "0xa") ≡ true)
unfolding assert_payout_reached_recipient same_hex
assert_payout_reached_recipient_iff_example =
    (assert_payout_reached_recipient_iff decode_payout pool claimed signer payout_logs
        (codes "0xa")).0
      refl

abbrev decode_swept : ObservedLog → Option SweptEvent
decode_swept log = some (record { caller = codes "0xCd"; amount = 9 })

-- The pool held 4, a claim took 3 of it in the same block, and the forwarder's 9 arrived.
abbrev balances : SweepBalances
balances = record {
  forwarder_before = 9;
  pool_before = 4;
  pool_after = 10;
  same_block_outflows = 3 ∷ [];
}

abbrev swept_logs : List ObservedLog
swept_logs = log_of pool 1 ∷ log_of other 1 ∷ []

assert_sweep_was_credited_iff_example :
    (n : ℕ) × OnlyOne (Sweeps decode_swept other signer) swept_logs n
    × (9 ≤ n)
    × (4 + 9 ≤ 10 + total_outflow (3 ∷ []))
unfolding assert_sweep_was_credited swept_amounts total_outflow same_hex ◌+ℤ◌ ◌-ℤ◌
assert_sweep_was_credited_iff_example =
    (assert_sweep_was_credited_iff decode_swept other signer swept_logs balances).0 refl
