-- ===== src/Pool.antt =====
-- The state of the pool contract (contracts/ValidatorFundingPool.sol), its events, its views, and the
-- helpers of its functions. An address, a root and a hash are numbers, a byte string a list of
-- numbers. `balance` is the ether that the pool's address holds.
pub mod Map
pub mod Lifecycle
pub mod Payout
pub mod Invariant
pub mod Arith
pub mod Refunds
pub mod Expiry
pub mod TopUp
pub mod Funding
pub mod Proceeds
pub mod Call
pub mod Trace
mod Examples
use validator_funding_pool.Base.{
  ℕ, ◌+◌, ◌-◌, ◌*◌, ◌/◌, ◌^◌, Bool, true, false, not, ◌&&◌, ◌||◌, List, [], ◌∷◌, ◌++◌, ltb, leb,
  ◌==◌, if◌then◌else◌, length,
}
use validator_funding_pool.Failure.{
  Result, ok, err, ◌>>=◌, ◌>>◌, guard, refuse_if, arithmetic_panic, invalid_recipient,
  eth_payout_failed,
}
use validator_funding_pool.Pool.Map.{Balances, get}

-- 1 ether
abbrev pub ether : ℕ
ether = 1_000_000_000_000_000_000

abbrev pub uint256_max : ℕ
uint256_max = 2 ^ 256 - 1

-- `VALIDATOR_DEPOSIT_WEI`, `PREDEPOSIT_WEI`, `TOP_UP_WEI`
abbrev pub validator_deposit_wei : ℕ
validator_deposit_wei = 32 * ether

abbrev pub predeposit_wei : ℕ
predeposit_wei = ether

abbrev pub top_up_wei : ℕ
top_up_wei = 31 * ether

abbrev pub max_participants : ℕ
max_participants = 32

abbrev pub pubkey_length : ℕ
pubkey_length = 48

abbrev pub signature_length : ℕ
signature_length = 96

-- `enum State`
pub data Stage : Type 0 where
  uninitialized predeposited funding topped_up : Stage

-- The immutables, and the contract's own address.
pub record PoolConfig : Type 0 where
  pub self : ℕ
  pub deposit_contract : ℕ
  pub withdrawal_request_predeploy : ℕ
  pub operator : ℕ
  pub funding_window_duration : ℕ

-- The storage. Between two calls the lock of `nonReentrant` is open, and is left out.
pub record Pool : Type 0 where
  pub state : Stage
  pub funding_attempt : ℕ
  pub funding_deadline : ℕ
  pub total_active_funded_wei : ℕ
  pub total_refundable_wei : ℕ
  pub total_refunded_wei : ℕ
  pub total_credited_wei : ℕ
  pub total_claimed_wei : ℕ
  pub predeposit_submitted : Bool
  pub top_up_submitted : Bool
  pub committed_pubkey_hash : ℕ
  pub predeposit_data_root : ℕ
  pub top_up_deposit_data_root : ℕ
  pub exit_request_attempt_count : ℕ
  pub last_exit_request_fee_paid : ℕ
  pub last_exit_request_at : ℕ
  pub participants : List ℕ
  pub committed_pubkey : List ℕ
  pub predeposit_signature : List ℕ
  pub top_up_signature : List ℕ
  pub participant_index_plus_one : Balances
  pub funding_target_wei_of : Balances
  pub active_funded_wei_of : Balances
  pub refundable_wei_of : Balances
  pub credited_wei_of : Balances
  pub claimed_wei_of : Balances
  pub balance : ℕ

-- The events, with their arguments in the source's order.
pub data PoolEvent : Type 0 where
  validator_predeposited :
      (pubkey_hash : ℕ) (pubkey : List ℕ) (predeposit_root top_up_root : ℕ) → PoolEvent
  funding_attempt_opened : (attempt deadline : ℕ) → PoolEvent
  participant_funded : (attempt participant amount participant_total attempt_total : ℕ) → PoolEvent
  refund_credited : (attempt participant amount participant_total refundable : ℕ) → PoolEvent
  funding_attempt_closed : (attempt : ℕ) → PoolEvent
  refunded : (participant recipient amount : ℕ) → PoolEvent
  validator_top_up_submitted : (pubkey_hash : ℕ) (pubkey : List ℕ) (root : ℕ) → PoolEvent
  pool_topped_up : PoolEvent
  eth_received_via_call : (sender amount : ℕ) → PoolEvent
  accounting_snapshot :
      Stage → (attempt balance active refundable refunded credited claimed gross : ℕ) → PoolEvent
  claimed : (participant recipient amount : ℕ) → PoolEvent
  exit_request_submitted : (pubkey_hash : ℕ) (pubkey : List ℕ) (fee_paid attempt : ℕ) → PoolEvent

-- What a call leaves: the storage, and the events it emitted.
abbrev pub Outcome : Type 0
Outcome = Pool × List PoolEvent

-- `a + b`, `a - b` and `a * b` of the checked arithmetic, on their exact values.
abbrev pub checked : ℕ → Result ℕ
checked n = refuse_if (ltb uint256_max n) arithmetic_panic >> ok n

abbrev pub checked_sub : ℕ → ℕ → Result ℕ
checked_sub a b = refuse_if (ltb a b) arithmetic_panic >> ok (a - b)

abbrev pub is_stage : Stage → Stage → Bool
is_stage uninitialized uninitialized = true
is_stage predeposited predeposited = true
is_stage funding funding = true
is_stage topped_up topped_up = true
is_stage _ _ = false

-- `_isParticipant`
abbrev pub is_participant : Pool → ℕ → Bool
is_participant p account = not (get p.participant_index_plus_one account == 0)

unfoldable pub gross_pool_proceeds : Pool → Result ℕ
gross_pool_proceeds p = do
  held ← checked (p.balance + p.total_claimed_wei)
  checked_sub held p.total_refundable_wei

-- `fundingRemainingWeiOf`; where less is required than was funded, nothing remains.
unfoldable pub funding_remaining_wei_of : PoolConfig → Pool → ℕ → Result ℕ
funding_remaining_wei_of c p participant =
    let target = get p.funding_target_wei_of participant in
    let funded = get p.active_funded_wei_of participant in
    elim (target == 0) [
      | true ↦ ok 0
      | false ↦ do
        required ← elim (participant == c.operator) [
          | true ↦ checked_sub target predeposit_wei
          | false ↦ ok target
        ]
        ok (required - funded)
    ]

-- `claimable` once the pool is topped up and the account has a credit; nothing is claimable twice.
unfoldable pub claimable : Pool → ℕ → Result ℕ
claimable p participant =
    let credit = get p.credited_wei_of participant in
    elim (is_stage p.state topped_up && not (credit == 0)) [
      | false ↦ ok 0
      | true ↦ do
        gross ← gross_pool_proceeds p
        product ← checked (gross * credit)
        ok (product / p.total_credited_wei - get p.claimed_wei_of participant)
    ]

-- `_emitAccountingSnapshot`, after the events of the call.
unfoldable pub with_snapshot : Pool → List PoolEvent → Result Outcome
with_snapshot p es = do
  gross ← gross_pool_proceeds p
  ok (
    p,
    es
        ++ (accounting_snapshot p.state p.funding_attempt p.balance p.total_active_funded_wei
              p.total_refundable_wei p.total_refunded_wei p.total_credited_wei p.total_claimed_wei
              gross
            ∷ []),
  )

-- `_validateRecipient`
abbrev pub validate_recipient : PoolConfig → ℕ → Result (Unit {0})
validate_recipient c recipient = refuse_if (recipient == 0 || recipient == c.self) invalid_recipient

-- `_sendEth`: the call fails where the pool has not the amount, or the recipient reverts.
abbrev pub send_eth : Pool → (amount : ℕ) (taken : Bool) → Result Pool
send_eth p amount taken =
    guard (leb amount p.balance && taken) eth_payout_failed
    >> ok (record p { balance = p.balance - amount })

-- The value of a call is in the balance when the function starts.
abbrev pub receive_value : Pool → ℕ → Pool
receive_value p value = record p { balance = p.balance + value }
