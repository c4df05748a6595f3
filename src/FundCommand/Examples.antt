-- ===== src/FundCommand/Examples.antt =====
-- The theorems on the `fund` command at a pool of two participants (scripts/fund.ts).
use validator_funding_pool.Base.{
  ℕ, ◌+◌, ◌*◌, ◌≡◌, refl, true, false, [], ◌∷◌, Option, none, some, arith, map,
}
use validator_funding_pool.Decimal.{is_canonical_decimal, big_int, Text}
use validator_funding_pool.Text.{codes, same_hex, same_text, to_lower_case, lower}
use validator_funding_pool.Env.{
  normalize_hex_length, as_hex, parse_deposit_amount_gwei, Env, AddressTest, env_text, env_big_int,
  optional_env_big_int, assert_expected_pool,
}
use validator_funding_pool.Fees.{fund_via_plain_transfer}
use validator_funding_pool.Failure.{ok, err, credited_as_proceeds, Succeeds}
use validator_funding_pool.Receipt.{ObservedLog, FundingEvent, assert_funding_was_credited}
use validator_funding_pool.Receipt
use validator_funding_pool.Pins.{assert_funding_pins, assert_still_fundable, pinned_values}
use validator_funding_pool.Deposit.Validate.{
  Consensus, ValidDeposit, validate_deposit_data, compute_deposit_data_root,
  verify_deposit_signature, compute_deposit_signing_root, gwei_to_number,
}
use validator_funding_pool.Deposit.Validate.Laws.{IsDeposit}
use validator_funding_pool.Deposit.Sample.{
  normalized, credentials, root, signature, predeposit, top_up,
}
use validator_funding_pool.FundCommand.Committed.{
  CommittedData, IsCommitted, assert_committed_data, validate_committed_deposits,
  validate_committed_deposits_sound,
}
use validator_funding_pool.Pool.{
  ether, PoolEvent, participant_funded, eth_received_via_call, validator_predeposited,
  funding_attempt_opened, refund_credited, funding_attempt_closed, refunded,
  validator_top_up_submitted, pool_topped_up, accounting_snapshot, claimed, exit_request_submitted,
  funding_remaining_wei_of, receive_value,
}
use validator_funding_pool.Pool.Map.{get}
use validator_funding_pool.Pool.Call.{exec, transfer}
use validator_funding_pool.Pool.Call.Laws.{Reachable-Valid}
use validator_funding_pool.Pool.Trace.{config, hash, half_funded_pool, half_funded, earning_pool}
use validator_funding_pool.FundCommand.{
  Payment, review_targets, reviewed_values, print_and_check_funding_review, amount_to_fund,
  decide_payment,
}
use validator_funding_pool.FundCommand.Views.{
  reviewed_pool, funding_state, message_of, funding_event,
}
use validator_funding_pool.FundCommand.Review.{TellsApart, reviewed_values-pinned_values}
use validator_funding_pool.FundCommand.Logs.{WritesLogs}
use validator_funding_pool.FundCommand.Delivery.{
  IsCredited, decide_payment-IsCredited, message_of-proceeds,
}

-- An address as one code, above those of the letters.
abbrev text : ℕ → Text
text a = (a + 1000) ∷ []

text-TellsApart : TellsApart text
unfolding same_hex same_text to_lower_case lower
text-TellsApart a b = ground arith

abbrev payload_of : PoolEvent → Text
payload_of (participant_funded attempt participant amount own all) =
    attempt ∷ participant ∷ amount ∷ own ∷ all ∷ []
payload_of (eth_received_via_call sender amount) = sender ∷ amount ∷ []
payload_of _ = []

abbrev log_of : PoolEvent → ObservedLog
log_of e = record { address = text 1000; topics = []; payload = payload_of e }

abbrev event_in : Text → Option FundingEvent
event_in (attempt ∷ participant ∷ amount ∷ own ∷ all ∷ []) =
    some (Receipt.participant_funded attempt (text participant) amount own all)
event_in (sender ∷ amount ∷ []) = some (Receipt.eth_received_via_call (text sender) amount)
event_in _ = none

abbrev decode : ObservedLog → Option FundingEvent
decode log = event_in log.payload

payload_lem : (e : PoolEvent) → event_in (payload_of e) ≡ funding_event text e
payload_lem (participant_funded attempt participant amount own all) = refl
payload_lem (eth_received_via_call sender amount) = refl
payload_lem (validator_predeposited pubkey_hash pubkey predeposit_root top_up_root) = refl
payload_lem (funding_attempt_opened attempt deadline) = refl
payload_lem (refund_credited attempt participant amount own refundable) = refl
payload_lem (funding_attempt_closed attempt) = refl
payload_lem (refunded participant recipient amount) = refl
payload_lem (validator_top_up_submitted pubkey_hash pubkey deposit_root) = refl
payload_lem pool_topped_up = refl
payload_lem (accounting_snapshot s attempt held active refundable paid credited taken gross) = refl
payload_lem (claimed participant recipient amount) = refl
payload_lem (exit_request_submitted pubkey_hash pubkey fee attempt) = refl

logs-WritesLogs : WritesLogs text config log_of decode
unfolding same_hex same_text to_lower_case lower
logs-WritesLogs = record { from_pool = λ e. refl; decoded = payload_lem }

abbrev unset : Env
unset name = none

abbrev any_address : AddressTest
any_address checksummed t = true

abbrev the_rest : Payment
the_rest = record { via_transfer = false; amount = 30 * ether }

decided :
    decide_payment any_address unset []
      (text 8)
      (reviewed_pool text config half_funded_pool)
      (30 * ether)
      (funding_state text config half_funded_pool 8 (30 * ether) 60)
    ≡ ok the_rest
unfolding decide_payment print_and_check_funding_review amount_to_fund fund_via_plain_transfer
    assert_still_fundable assert_funding_pins assert_expected_pool env_big_int optional_env_big_int
    env_text review_targets
decided = refl

decide_payment-IsCredited_example :
    Succeeds
      (IsCredited text config log_of decode half_funded_pool 8 (30 * ether))
      (exec hash config half_funded_pool (message_of the_rest 8 70))
unfolding funding_remaining_wei_of get
decide_payment-IsCredited_example =
    decide_payment-IsCredited text config log_of decode text-TellsApart logs-WritesLogs hash
      half_funded_pool 8 70 any_address unset [] (reviewed_pool text config half_funded_pool)
      (30 * ether) (30 * ether) 60 the_rest
      (Reachable-Valid hash config half_funded_pool half_funded) decided refl (omega arith)
      (omega arith)

message_of-proceeds_example :
    Succeeds
      (λ o.
        (o.0 ≡ receive_value earning_pool ether)
        × (assert_funding_was_credited decode (text 1000) (text 8) (map log_of o.1) ether
            ≡ err credited_as_proceeds))
      (exec hash config earning_pool (transfer 8 ether 90))
message_of-proceeds_example =
    message_of-proceeds text config log_of decode text-TellsApart logs-WritesLogs hash earning_pool
      8 90 ether refl

reviewed_values-pinned_values_example :
    reviewed_values (text 8) (reviewed_pool text config half_funded_pool)
    ≡ pinned_values (funding_state text config half_funded_pool 8 (30 * ether) 60)
reviewed_values-pinned_values_example =
    reviewed_values-pinned_values text config half_funded_pool 8 (30 * ether) 60 text-TellsApart
      (Reachable-Valid hash config half_funded_pool half_funded) refl

-- A library whose root is always the file's, and that verifies every signature.
abbrev lenient : Consensus
lenient = record {
  from_hex = λ t. t;
  to_hex = λ bytes. root;
  domain_deposit = 3 ∷ 0 ∷ 0 ∷ 0 ∷ [];
  deposit_data_root = λ pubkey credentials amount signature. [];
  deposit_message_root = λ pubkey credentials amount. [];
  signing_data_root = λ object_root domain. [];
  fork_data_root = λ version root. [];
  verify = λ message pubkey signature. true;
}

abbrev committed_data : CommittedData
committed_data = record {
  pubkey = normalized;
  predeposit_root = root;
  top_up_root = root;
  predeposit_signature = signature;
  top_up_signature = signature;
}

abbrev valid_deposit : ℕ → ValidDeposit
valid_deposit gwei = record {
  pubkey = normalized;
  withdrawal_credentials = credentials;
  signature = signature;
  deposit_data_root = root;
  amount_gwei = gwei;
  fork_version = codes "0x00000000";
}

validate_committed_deposits_sound_example :
    IsDeposit lenient predeposit credentials
      (codes "0x00000000")
      none
      1_000_000_000
      (valid_deposit 1_000_000_000)
    × IsDeposit lenient top_up credentials
        (codes "0x00000000")
        (some normalized)
        31_000_000_000
        (valid_deposit 31_000_000_000)
    × IsCommitted committed_data (valid_deposit 1_000_000_000) (valid_deposit 31_000_000_000)
unfolding validate_committed_deposits validate_deposit_data assert_committed_data
    normalize_hex_length as_hex same_hex same_text to_lower_case lower parse_deposit_amount_gwei
    is_canonical_decimal big_int compute_deposit_data_root verify_deposit_signature
    compute_deposit_signing_root gwei_to_number env_text
validate_committed_deposits_sound_example =
    validate_committed_deposits_sound lenient unset predeposit top_up credentials
      (codes "0x00000000") committed_data (valid_deposit 1_000_000_000)
      (valid_deposit 31_000_000_000) refl
