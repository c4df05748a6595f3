-- ===== src/Pool/Invariant/Balance.antt =====
-- Ether that arrives, and ether that goes out as a refund or for an exit request, keep the invariant
-- (contracts/ValidatorFundingPool.sol, `receive`, `refundTo`, `requestExit`).
use validator_funding_pool.Base.{
  ℕ, ◌+◌, ◌-◌, ◌*◌, ◌≤◌, ◌≡◌, refl, sym, Bool, ◌&&◌, List, arith, ltb, leb, ◌==◌, Bool-cases, inl,
  inr, length,
}
use mathlib.Core.Path.{subst}
use validator_funding_pool.Failure.{
  ok, guard, refuse_if, invalid_state, not_participant, nothing_to_refund, exit_fee_too_high,
  insufficient_exit_fee, exit_request_failed, eth_payout_failed, Ensures, returned, thrown,
  bind-Ensures, Ensures-sound, map-Ensures,
}
use validator_funding_pool.Pool.Map.{Balances, get, set, total-set}
use validator_funding_pool.Pool.{
  pubkey_length, Stage, uninitialized, predeposited, funding, topped_up, PoolConfig, Pool, checked,
  checked_sub, is_stage, validate_recipient, send_eth, receive_value,
}
use validator_funding_pool.Pool.Payout.{
  receive_transfer, ExitAnswers, read_fee, can_request_exit, return_change, request_exit, refund_to,
}
use validator_funding_pool.Pool.Invariant.{
  IsSettled, InStage, gross_of, owed, Valid, ValidOutcome, with_snapshot-Valid,
}
use validator_funding_pool.Pool.Invariant.Attempt.{fund-Valid}

mul-le : (k m n : ℕ) → m ≤ n → m * k ≤ n * k
mul-le k m n h = grind arith

-- What was within the shares of the proceeds is within the shares of larger proceeds.
pub IsSettled-grow :
    (participants : List ℕ) (credited claimed : Balances)
    (total_credited total_claimed less more : ℕ)
    → less ≤ more
    → IsSettled participants credited claimed total_credited total_claimed less
    → IsSettled participants credited claimed total_credited total_claimed more
IsSettled-grow participants credited claimed total_credited total_claimed less more h v = record {
  distinct = v.distinct;
  shares = v.shares;
  all_shares = v.all_shares;
  claims = v.claims;
  within = λ a m. omega (arith, v.within a m, mul-le (get credited a) less more h);
  unlisted = v.unlisted;
}

with_balance : Pool → ℕ → Pool
with_balance p n = record p { balance = n }

owed-with_balance : (p : Pool) (n : ℕ) (s : Stage) → owed s (with_balance p n) ≡ owed s p
unfolding with_balance
owed-with_balance p n uninitialized = refl
owed-with_balance p n predeposited = refl
owed-with_balance p n funding = refl
owed-with_balance p n topped_up = refl

InStage-with_balance :
    (c : PoolConfig) (p : Pool) (n : ℕ) (s : Stage)
    → p.balance ≤ n
    → InStage c p s
    → InStage c (with_balance p n) s
unfolding with_balance
InStage-with_balance c p n uninitialized le v = v
InStage-with_balance c p n predeposited le v = v
InStage-with_balance c p n funding le v = v
InStage-with_balance c p n topped_up le v =
    IsSettled-grow _ _ _ _ _ (gross_of p) (gross_of (record p { balance = n })) (omega arith) v

-- More ether in the balance keeps the invariant, whoever sent it and however.
with_balance-Valid :
    (c : PoolConfig) (p : Pool) (n : ℕ) → p.balance ≤ n → Valid c p → Valid c (with_balance p n)
unfolding with_balance
with_balance-Valid c p n le v = record {
  refundable = v.refundable;
  covered = omega (arith, v.covered, owed-with_balance p n p.state);
  submitted = v.submitted;
  in_stage = InStage-with_balance c p n p.state le v.in_stage;
}

pub receive_value-Valid :
    (c : PoolConfig) (p : Pool) (value : ℕ) → Valid c p → Valid c (receive_value p value)
unfolding with_balance
receive_value-Valid c p value v = with_balance-Valid c p (p.balance + value) (omega arith) v

-- A transfer funds an open attempt, and adds to the proceeds of a pool that is topped up.
pub receive_transfer-Valid :
    (c : PoolConfig) (p : Pool) (sender value now : ℕ)
    → Valid c p
    → Ensures (ValidOutcome c) (receive_transfer c (receive_value p value) sender value now)
unfolding receive_transfer
receive_transfer-Valid c p sender value now v = elim (Bool-cases (is_stage p.state funding)) [
  | inl e ↦ rw (receive_transfer, e) (fund-Valid c p sender value now v)
  | inr e ↦ elim (Bool-cases (is_stage p.state topped_up)) [
    | inl t ↦ rw (receive_transfer, e, t) (returned (receive_value-Valid c p value v))
    | inr t ↦ rw (receive_transfer, e, t) thrown
  ]
]

-- What `send_eth` does to the pool.
pub send_eth-Ensures :
    (p : Pool) (amount : ℕ) (taken : Bool)
    → Ensures
        (λ q. (amount ≤ p.balance) × (q ≡ record p { balance = p.balance - amount }))
        (send_eth p amount taken)
send_eth-Ensures p amount taken =
    bind-Ensures (guard (leb amount p.balance && taken) eth_payout_failed) _
      λ _ h. returned (ground arith, refl)

-- The pool after a refund of the sender.
pub refund : Pool → ℕ → (outstanding paid_back balance : ℕ) → Pool
refund p sender outstanding paid_back balance = record p {
  refundable_wei_of = set p.refundable_wei_of sender 0;
  total_refundable_wei = outstanding;
  total_refunded_wei = paid_back;
  balance = balance;
}

module _ (c : PoolConfig) (p : Pool) (sender outstanding paid_back amount : ℕ)
    (own : amount ≡ get p.refundable_wei_of sender)
    (left : outstanding + amount ≡ p.total_refundable_wei) where
  refunded_pool : Pool
  refunded_pool = refund p sender outstanding paid_back (p.balance - amount)

  -- A refund takes as much from what is owed as from the balance.
  owed-refund : (s : Stage) → owed s p ≤ p.balance → owed s refunded_pool ≤ p.balance - amount
  unfolding refunded_pool refund
  owed-refund uninitialized h = omega (arith, left)
  owed-refund predeposited h = omega (arith, left)
  owed-refund funding h = omega (arith, left)
  owed-refund topped_up h = omega (arith, left)

  InStage-refund : (s : Stage) → owed s p ≤ p.balance → InStage c p s → InStage c refunded_pool s
  unfolding refunded_pool refund
  InStage-refund uninitialized h v = v
  InStage-refund predeposited h v = v
  InStage-refund funding h v = v
  InStage-refund topped_up h v =
      IsSettled-grow _ _ _ _ _ (gross_of p) (p.balance - amount + p.total_claimed_wei - outstanding)
        (omega (arith, left)) v

  refund-Valid : Valid c p → Valid c refunded_pool
  unfolding refunded_pool refund
  refund-Valid v = record {
    refundable = omega (arith, total-set p.refundable_wei_of sender 0, v.refundable, left, own);
    covered = owed-refund p.state v.covered;
    submitted = v.submitted;
    in_stage = InStage-refund p.state v.covered v.in_stage;
  }

pub checked_sub_sound : (a b d : ℕ) → checked_sub a b ≡ ok d → d + b ≡ a
checked_sub_sound a b d h = ground arith

-- A refund keeps the invariant.
pub refund_to-Valid :
    (c : PoolConfig) (p : Pool) (sender recipient : ℕ) (taken : Bool)
    → Valid c p
    → Ensures (ValidOutcome c) (refund_to c p sender recipient taken)
unfolding refund_to refunded_pool refund
refund_to-Valid c p sender recipient taken v =
    let amount = get p.refundable_wei_of sender in
    bind-Ensures (validate_recipient c recipient) _ λ _ _.
      bind-Ensures (refuse_if (amount == 0) nothing_to_refund) _ λ _ _.
        bind-Ensures (checked_sub p.total_refundable_wei amount) _ λ outstanding left.
          bind-Ensures (checked (p.total_refunded_wei + amount)) _ λ paid_back _.
            let written = refund p sender outstanding paid_back p.balance in
            bind-Ensures (send_eth written amount taken) _ λ after sent.
              let out = Ensures-sound (send_eth-Ensures written amount taken) after sent in
              with_snapshot-Valid c after _ (
                subst (Valid c) (sym out.1) (
                  refund-Valid c p sender outstanding paid_back amount refl
                    (checked_sub_sound p.total_refundable_wei amount outstanding left) v))

-- The counters of the exit requests are no part of the invariant.
count_exit : Pool → (attempts fee now : ℕ) → Pool
count_exit p attempts fee now = record p {
  exit_request_attempt_count = attempts;
  last_exit_request_fee_paid = fee;
  last_exit_request_at = now;
}

module _ (c : PoolConfig) (p : Pool) (attempts fee now : ℕ) where
  owed-count_exit : (s : Stage) → owed s (count_exit p attempts fee now) ≡ owed s p
  unfolding count_exit
  owed-count_exit uninitialized = refl
  owed-count_exit predeposited = refl
  owed-count_exit funding = refl
  owed-count_exit topped_up = refl

  InStage-count_exit : (s : Stage) → InStage c p s → InStage c (count_exit p attempts fee now) s
  unfolding count_exit
  InStage-count_exit uninitialized v = v
  InStage-count_exit predeposited v = v
  InStage-count_exit funding v = v
  InStage-count_exit topped_up v = v

  count_exit-Valid : Valid c p → Valid c (count_exit p attempts fee now)
  unfolding count_exit
  count_exit-Valid v = record {
    refundable = v.refundable;
    covered = omega (arith, v.covered, owed-count_exit p.state);
    submitted = v.submitted;
    in_stage = InStage-count_exit p.state v.in_stage;
  }

-- With the fee and the change paid, what is left of the value is nothing.
return_change-Ensures :
    (c : PoolConfig) (p : Pool) (value fee : ℕ) (taken : Bool)
    → Valid c p
    → fee ≤ value
    → Ensures
        (Valid c)
        (return_change (record p { balance = p.balance + value - fee }) (value - fee) taken)
unfolding with_balance
return_change-Ensures c p value fee taken v le = elim (Bool-cases (value - fee == 0)) [
  | inl e ↦
      rw (return_change, e)
        (returned (with_balance-Valid c p (p.balance + value - fee) (omega arith) v))
  | inr e ↦
      let before = record p { balance = p.balance + value - fee } in
      rw (return_change, e)
        (map-Ensures
          (λ q out.
            subst (Valid c) (sym out.1)
              (with_balance-Valid c p (p.balance + value - fee - (value - fee)) (omega arith) v))
          (send_eth-Ensures before (value - fee) taken))
]

-- The fee and the change come out of the value of the call.
pub request_exit-Valid :
    (c : PoolConfig) (p : Pool) (sender value now max_fee : ℕ) (answers : ExitAnswers)
    → Valid c p
    → Ensures
        (ValidOutcome c)
        (request_exit c (receive_value p value) sender value now max_fee answers)
unfolding request_exit count_exit
request_exit-Valid c p sender value now max_fee answers v =
    bind-Ensures (guard (length p.committed_pubkey == pubkey_length) invalid_state) _ λ _ _.
      bind-Ensures (guard (can_request_exit c (receive_value p value) sender) not_participant) _
        λ _ _. bind-Ensures (read_fee answers.fee) _ λ fee _.
          bind-Ensures (refuse_if (ltb max_fee fee) exit_fee_too_high) _ λ _ _.
            bind-Ensures (refuse_if (ltb value fee) insufficient_exit_fee) _ λ _ enough.
              bind-Ensures
                (guard (leb fee (p.balance + value) && answers.accepted) exit_request_failed) _
                λ _ _. bind-Ensures (checked (p.exit_request_attempt_count + 1)) _ λ attempts _.
                  let base = count_exit-Valid c p attempts fee now v in
                  let paid_for : fee ≤ value = ground arith in
                  let before = record (count_exit p attempts fee now) {
                    balance = p.balance + value - fee;
                  } in
                  bind-Ensures (return_change before (value - fee) answers.change_taken) _
                    λ after sent. returned (
                      Ensures-sound
                        (return_change-Ensures c (count_exit p attempts fee now) value fee
                          answers.change_taken base paid_for)
                        after sent)
