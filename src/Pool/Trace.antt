-- ===== src/Pool/Trace.antt =====
-- A pool of two participants, from the deployment to the proceeds, and an attempt that expires
-- (contracts/ValidatorFundingPool.sol): data of the tests.
use validator_funding_pool.Base.{ℕ, ◌*◌, refl, Bool, true, List, [], ◌∷◌, ◌++◌}
use validator_funding_pool.Failure.{Result, ok, err}
use validator_funding_pool.Pool.Map.{get, set}
use validator_funding_pool.Pool.{
  ether, predeposited, funding, topped_up, PoolConfig, Pool, PoolEvent, Outcome,
  funding_remaining_wei_of, gross_pool_proceeds, with_snapshot,
}
use validator_funding_pool.Pool.Lifecycle.{
  deployed, construct, ValidatorData, commit_and_predeposit, add_participant, add_participants,
  set_funding_attempt, open_funding_attempt, close_participant, close_participants,
  close_expired_funding_attempt, credit_targets, top_up_validator,
}
use validator_funding_pool.Pool.Payout.{fund, receive_transfer}
use validator_funding_pool.Pool.Call.{
  Message, commit_and_predeposit_call, open_funding_attempt_call, fund_call, transfer, close_call,
  top_up_call, forced, exec, Reachable, start, later,
}

abbrev pub config : PoolConfig
config = record {
  self = 1000;
  deposit_contract = 1;
  withdrawal_request_predeploy = 2;
  operator = 7;
  funding_window_duration = 100;
}

abbrev pub hash : List ℕ → ℕ
hash bytes = 5

abbrev pub has_code : ℕ → Bool
has_code a = true

abbrev pub zeros_16 : List ℕ
zeros_16 = 0 ∷ 0 ∷ 0 ∷ 0 ∷ 0 ∷ 0 ∷ 0 ∷ 0 ∷ 0 ∷ 0 ∷ 0 ∷ 0 ∷ 0 ∷ 0 ∷ 0 ∷ 0 ∷ []

abbrev pub zeros_48 : List ℕ
zeros_48 = zeros_16 ++ zeros_16 ++ zeros_16

abbrev pub validator : ValidatorData
validator = record {
  pubkey = zeros_48;
  predeposit_signature = zeros_48 ++ zeros_48;
  predeposit_root = 11;
  top_up_signature = zeros_48 ++ zeros_48;
  top_up_root = 12;
}

abbrev pub after : Result Outcome → Pool
after (ok o) = o.0
after (err e) = deployed 0

abbrev pub events : Result Outcome → List PoolEvent
events (ok o) = o.1
events (err e) = []

abbrev pub commit_message : Message
commit_message = commit_and_predeposit_call 7 ether validator true

abbrev pub open_message : Message
open_message = open_funding_attempt_call 7 50 (7 ∷ 8 ∷ []) (2 * ether ∷ 30 * ether ∷ [])

abbrev pub predeposited_pool : Pool
predeposited_pool = record (deployed 0) {
  state = predeposited;
  predeposit_submitted = true;
  committed_pubkey_hash = 5;
  predeposit_data_root = 11;
  top_up_deposit_data_root = 12;
  committed_pubkey = zeros_48;
  predeposit_signature = zeros_48 ++ zeros_48;
  top_up_signature = zeros_48 ++ zeros_48;
}

abbrev pub open_pool : Pool
open_pool = record predeposited_pool {
  state = funding;
  funding_attempt = 1;
  funding_deadline = 150;
  participants = 7 ∷ 8 ∷ [];
  participant_index_plus_one = (7, 1) ∷ (8, 2) ∷ [];
  funding_target_wei_of = (7, 2 * ether) ∷ (8, 30 * ether) ∷ [];
}

-- The operator has funded.
abbrev pub half_funded_pool : Pool
half_funded_pool = record open_pool {
  active_funded_wei_of = (7, ether) ∷ [];
  total_active_funded_wei = ether;
  balance = ether;
}

abbrev pub funded_pool : Pool
funded_pool = record open_pool {
  active_funded_wei_of = (7, ether) ∷ (8, 30 * ether) ∷ [];
  total_active_funded_wei = 31 * ether;
  balance = 31 * ether;
}

abbrev pub topped_up_pool : Pool
topped_up_pool = record funded_pool {
  state = topped_up;
  credited_wei_of = (7, 2 * ether) ∷ (8, 30 * ether) ∷ [];
  total_credited_wei = 32 * ether;
  top_up_submitted = true;
  balance = 0;
}

-- Proceeds have arrived.
abbrev pub earning_pool : Pool
earning_pool = record topped_up_pool { balance = 16 * ether }

-- The attempt has expired before it was funded.
abbrev pub closed_pool : Pool
closed_pool = record open_pool {
  state = predeposited;
  funding_deadline = 0;
  participants = [];
  participant_index_plus_one = (7, 0) ∷ (8, 0) ∷ [];
  funding_target_wei_of = (7, 0) ∷ (8, 0) ∷ [];
  active_funded_wei_of = (7, 0) ∷ [];
  refundable_wei_of = (7, ether) ∷ [];
  total_refundable_wei = ether;
  balance = ether;
}

pub made : Reachable hash config (deployed 0)
unfolding construct
made = start has_code 0 refl

pub committed : Reachable hash config predeposited_pool
unfolding exec commit_and_predeposit with_snapshot gross_pool_proceeds
committed = later commit_message made refl

pub opened : Reachable hash config open_pool
unfolding exec open_funding_attempt set_funding_attempt add_participants add_participant get set
    with_snapshot gross_pool_proceeds
opened = later open_message committed refl

pub half_funded : Reachable hash config half_funded_pool
unfolding exec fund funding_remaining_wei_of get set with_snapshot gross_pool_proceeds
half_funded = later (fund_call 7 ether 60) opened refl

pub funded : Reachable hash config funded_pool
unfolding exec fund receive_transfer funding_remaining_wei_of get set with_snapshot
    gross_pool_proceeds
funded = later (transfer 8 (30 * ether) 70) half_funded refl

pub topped : Reachable hash config topped_up_pool
unfolding exec top_up_validator credit_targets get set with_snapshot gross_pool_proceeds
topped = later (top_up_call 7 80 true) funded refl

pub earning : Reachable hash config earning_pool
unfolding exec
earning = later (forced (16 * ether)) topped refl

pub closed : Reachable hash config closed_pool
unfolding exec close_expired_funding_attempt close_participants close_participant get set
    with_snapshot gross_pool_proceeds
closed = later (close_call 151) half_funded refl
