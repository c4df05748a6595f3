-- ===== src/Pool/Lifecycle.antt =====
-- The validator's deposits and the funding attempts (contracts/ValidatorFundingPool.sol, the
-- constructor, `commitAndPredeposit`, `openFundingAttempt`, `closeExpiredFundingAttempt`,
-- `topUpValidator`). A loop over the participants works on the fields that it writes, which a revert
-- drops with everything else. `accepted` says whether the deposit contract's call succeeds.
use validator_funding_pool.Base.{
  ℕ, ◌+◌, ◌-◌, Bool, true, false, not, ◌&&◌, ◌||◌, List, [], ◌∷◌, ◌++◌, ltb, leb, ◌==◌, length,
}
use validator_funding_pool.Failure.{
  Result, ok, ◌>>=◌, ◌>>◌, guard, refuse_if, invalid_deposit_contract,
  invalid_withdrawal_request_predeploy, invalid_operator, invalid_funding_window, invalid_state,
  not_operator, empty_participant_set, too_many_participants, invalid_participant,
  duplicate_participant, invalid_funding_target, funding_targets_do_not_match_validator,
  operator_target_too_small, funding_closed, funding_still_open, funding_incomplete,
  invalid_predeposit_value, invalid_pubkey, invalid_signature, invalid_deposit_data_root,
  deposit_reverted,
}
use validator_funding_pool.Pool.Map.{Balances, get, set}
use validator_funding_pool.Pool.{
  validator_deposit_wei, predeposit_wei, top_up_wei, max_participants, pubkey_length,
  signature_length, uninitialized, predeposited, funding, topped_up, PoolConfig, Pool, PoolEvent,
  validator_predeposited, funding_attempt_opened, refund_credited, funding_attempt_closed,
  validator_top_up_submitted, pool_topped_up, Outcome, checked, is_stage, with_snapshot,
}

-- The storage of a new contract; ether may have been sent to its address before.
abbrev pub deployed : ℕ → Pool
deployed balance = record {
  state = uninitialized;
  funding_attempt = 0;
  funding_deadline = 0;
  total_active_funded_wei = 0;
  total_refundable_wei = 0;
  total_refunded_wei = 0;
  total_credited_wei = 0;
  total_claimed_wei = 0;
  predeposit_submitted = false;
  top_up_submitted = false;
  committed_pubkey_hash = 0;
  predeposit_data_root = 0;
  top_up_deposit_data_root = 0;
  exit_request_attempt_count = 0;
  last_exit_request_fee_paid = 0;
  last_exit_request_at = 0;
  participants = [];
  committed_pubkey = [];
  predeposit_signature = [];
  top_up_signature = [];
  participant_index_plus_one = [];
  funding_target_wei_of = [];
  active_funded_wei_of = [];
  refundable_wei_of = [];
  credited_wei_of = [];
  claimed_wei_of = [];
  balance = balance;
}

-- The constructor, where `has_code` says whether there is code at an address.
unfoldable pub construct : (has_code : ℕ → Bool) → PoolConfig → (balance : ℕ) → Result Pool
construct has_code c balance = do
  refuse_if (c.deposit_contract == 0 || not (has_code c.deposit_contract)) invalid_deposit_contract
  refuse_if (c.withdrawal_request_predeploy == 0 || not (has_code c.withdrawal_request_predeploy))
      invalid_withdrawal_request_predeploy
  refuse_if (c.operator == 0) invalid_operator
  refuse_if (c.funding_window_duration == 0) invalid_funding_window
  ok (deployed balance)

-- `_validateValidatorData`
abbrev pub validate_validator_data : (pubkey signature : List ℕ) (root : ℕ) → Result (Unit {0})
validate_validator_data pubkey signature root = do
  guard (length pubkey == pubkey_length) invalid_pubkey
  guard (length signature == signature_length) invalid_signature
  refuse_if (root == 0) invalid_deposit_data_root

-- The arguments of `commitAndPredeposit`.
pub record ValidatorData : Type 0 where
  pub pubkey : List ℕ
  pub predeposit_signature : List ℕ
  pub predeposit_root : ℕ
  pub top_up_signature : List ℕ
  pub top_up_root : ℕ

-- The deposit call sends the predeposit on to the deposit contract.
abbrev pub commit : (keccak256 : List ℕ → ℕ) → Pool → ValidatorData → Pool
commit keccak256 p d = record p {
  committed_pubkey_hash = keccak256 d.pubkey;
  predeposit_data_root = d.predeposit_root;
  top_up_deposit_data_root = d.top_up_root;
  committed_pubkey = d.pubkey;
  predeposit_signature = d.predeposit_signature;
  top_up_signature = d.top_up_signature;
  predeposit_submitted = true;
  state = predeposited;
}

-- `address.deposit{value: amount}(...)`
abbrev pub deposit : Pool → (amount : ℕ) (accepted : Bool) → Result Pool
deposit p amount accepted =
    guard (leb amount p.balance && accepted) deposit_reverted
    >> ok (record p { balance = p.balance - amount })

-- `p` has the value of the call already.
unfoldable pub commit_and_predeposit :
    (keccak256 : List ℕ → ℕ)
    → PoolConfig
    → Pool
    → (sender value : ℕ) → ValidatorData
    → (accepted : Bool) → Result Outcome
commit_and_predeposit keccak256 c p sender value d accepted = do
  guard (sender == c.operator) not_operator
  guard (is_stage p.state uninitialized) invalid_state
  guard (value == predeposit_wei) invalid_predeposit_value
  validate_validator_data d.pubkey d.predeposit_signature d.predeposit_root
  validate_validator_data d.pubkey d.top_up_signature d.top_up_root
  paid ← deposit p predeposit_wei accepted
  with_snapshot (commit keccak256 paid d)
      (validator_predeposited (keccak256 d.pubkey) d.pubkey d.predeposit_root d.top_up_root ∷ [])

-- What the loop of `_setFundingAttempt` writes, and its two local variables.
pub record Roster : Type 0 where
  pub participants : List ℕ
  pub index : Balances
  pub targets : Balances
  pub target_total : ℕ
  pub operator_seen : Bool

-- One round of the loop, the `i`-th.
unfoldable pub add_participant : PoolConfig → ℕ → Roster → (participant target : ℕ) → Result Roster
add_participant c i r participant target = do
  refuse_if (participant == 0) invalid_participant
  guard (get r.index participant == 0) duplicate_participant
  refuse_if (target == 0) invalid_funding_target
  refuse_if (participant == c.operator && ltb target predeposit_wei) operator_target_too_small
  target_total ← checked (r.target_total + target)
  ok (record {
    participants = r.participants ++ (participant ∷ []);
    index = set r.index participant (i + 1);
    targets = set r.targets participant target;
    target_total = target_total;
    operator_seen = r.operator_seen || participant == c.operator;
  })

-- The lists have the same length.
unfoldable pub add_participants :
    PoolConfig → ℕ → Roster → (participants targets : List ℕ) → Result Roster
add_participants c i r (a ∷ others) (t ∷ ts) =
    add_participant c i r a t >>= λ next. add_participants c (i + 1) next others ts
add_participants c i r _ _ = ok r

abbrev pub roster_of : Pool → Roster
roster_of p = record {
  participants = p.participants;
  index = p.participant_index_plus_one;
  targets = p.funding_target_wei_of;
  target_total = 0;
  operator_seen = false;
}

-- `_setFundingAttempt`
unfoldable pub set_funding_attempt :
    PoolConfig → Pool → (participants targets : List ℕ) → Result Roster
set_funding_attempt c p participants targets = do
  refuse_if (length participants == 0) empty_participant_set
  refuse_if (ltb max_participants (length participants)) too_many_participants
  guard (length participants == length targets) invalid_funding_target
  r ← add_participants c 0 (roster_of p) participants targets
  guard r.operator_seen operator_target_too_small
  guard (r.target_total == validator_deposit_wei) funding_targets_do_not_match_validator
  ok r

abbrev pub open_with : Pool → Roster → (attempt deadline : ℕ) → Pool
open_with p r attempt deadline = record p {
  participants = r.participants;
  participant_index_plus_one = r.index;
  funding_target_wei_of = r.targets;
  funding_deadline = deadline;
  funding_attempt = attempt;
  state = funding;
}

unfoldable pub open_funding_attempt :
    PoolConfig → Pool → (sender now : ℕ) (participants targets : List ℕ) → Result Outcome
open_funding_attempt c p sender now participants targets = do
  guard (sender == c.operator) not_operator
  guard (is_stage p.state predeposited) invalid_state
  r ← set_funding_attempt c p participants targets
  deadline ← checked (now + c.funding_window_duration)
  attempt ← checked (p.funding_attempt + 1)
  with_snapshot (open_with p r attempt deadline) (funding_attempt_opened attempt deadline ∷ [])

-- What the loop of `closeExpiredFundingAttempt` writes.
pub record Closing : Type 0 where
  pub active : Balances
  pub refundable : Balances
  pub total_refundable : ℕ
  pub targets : Balances
  pub index : Balances
  pub events : List PoolEvent

-- What was funded becomes a refund claim.
abbrev pub credit_refund : (attempt : ℕ) → Closing → ℕ → (funded : ℕ) → Result Closing
credit_refund attempt z participant funded = do
  owed ← checked (get z.refundable participant + funded)
  outstanding ← checked (z.total_refundable + funded)
  ok (record z {
    active = set z.active participant 0;
    refundable = set z.refundable participant owed;
    total_refundable = outstanding;
    events = z.events ++ (refund_credited attempt participant funded owed outstanding ∷ []);
  })

abbrev pub clear_participant : Closing → ℕ → Closing
clear_participant z participant = record z {
  targets = set z.targets participant 0;
  index = set z.index participant 0;
}

-- One round of the loop.
unfoldable pub close_participant : (attempt : ℕ) → Closing → ℕ → Result Closing
close_participant attempt z participant = do
  credited ← elim (get z.active participant == 0) [
    | true ↦ ok z
    | false ↦ credit_refund attempt z participant (get z.active participant)
  ]
  ok (clear_participant credited participant)

unfoldable pub close_participants : (attempt : ℕ) → Closing → List ℕ → Result Closing
close_participants attempt z [] = ok z
close_participants attempt z (a ∷ others) =
    close_participant attempt z a >>= λ next. close_participants attempt next others

abbrev pub closing_of : Pool → Closing
closing_of p = record {
  active = p.active_funded_wei_of;
  refundable = p.refundable_wei_of;
  total_refundable = p.total_refundable_wei;
  targets = p.funding_target_wei_of;
  index = p.participant_index_plus_one;
  events = [];
}

abbrev pub closed_with : Pool → Closing → Pool
closed_with p z = record p {
  active_funded_wei_of = z.active;
  refundable_wei_of = z.refundable;
  total_refundable_wei = z.total_refundable;
  funding_target_wei_of = z.targets;
  participant_index_plus_one = z.index;
  participants = [];
  total_active_funded_wei = 0;
  funding_deadline = 0;
  state = predeposited;
}

unfoldable pub close_expired_funding_attempt : Pool → (now : ℕ) → Result Outcome
close_expired_funding_attempt p now = do
  guard (is_stage p.state funding) invalid_state
  refuse_if (leb now p.funding_deadline) funding_still_open
  z ← close_participants p.funding_attempt (closing_of p) p.participants
  with_snapshot (closed_with p z) (z.events ++ (funding_attempt_closed p.funding_attempt ∷ []))

-- The loop of `topUpValidator`: each target is credited.
unfoldable pub credit_targets :
    (targets credited : Balances) (total : ℕ) → List ℕ → Result (Balances × ℕ)
credit_targets targets credited total [] = ok (credited, total)
credit_targets targets credited total (a ∷ others) = checked (total + get targets a) >>= λ next.
    credit_targets targets (set credited a (get targets a)) next others

abbrev pub topped_up_with : Pool → Balances → ℕ → Pool
topped_up_with p credited total = record p {
  credited_wei_of = credited;
  total_credited_wei = total;
  top_up_submitted = true;
  state = topped_up;
}

unfoldable pub top_up_validator :
    PoolConfig → Pool → (sender now : ℕ) (accepted : Bool) → Result Outcome
top_up_validator c p sender now accepted = do
  guard (sender == c.operator) not_operator
  guard (is_stage p.state funding) invalid_state
  refuse_if (ltb p.funding_deadline now) funding_closed
  guard (p.total_active_funded_wei == top_up_wei) funding_incomplete
  needed ← checked (top_up_wei + p.total_refundable_wei)
  refuse_if (ltb p.balance needed) funding_incomplete
  refuse_if p.top_up_submitted invalid_state
  (credited, total) ←
      credit_targets p.funding_target_wei_of p.credited_wei_of p.total_credited_wei p.participants
  guard (total == validator_deposit_wei) funding_targets_do_not_match_validator
  paid ← deposit p top_up_wei accepted
  with_snapshot (topped_up_with paid credited total) (
      validator_top_up_submitted p.committed_pubkey_hash p.committed_pubkey
        p.top_up_deposit_data_root
      ∷ pool_topped_up
      ∷ [])
