-- ===== src/Forwarder.antt =====
-- The fee recipient forwarder (contracts/FeeRecipientForwarder.sol) and the pool that it sends to.
pub mod Logs
pub mod Block
mod Examples
use validator_funding_pool.Base.{
  ℕ, ◌+◌, ◌^◌, Bool, false, not, ◌||◌, List, [], ◌∷◌, Option, none, some, ◌==◌,
}
use validator_funding_pool.Failure.{
  Result, ok, err, ◌>>=◌, ◌>>◌, guard, refuse_if, invalid_pool, invalid_pool_withdrawal_credentials,
  empty_balance, sweep_failed,
}
use validator_funding_pool.Pool.{PoolConfig, Pool, Outcome, receive_value}
use validator_funding_pool.Pool.Payout.{receive_transfer}

-- The immutable pool is that of the calls; the address and the balance are the contract's own.
pub record Forwarder : Type 0 where
  pub address : ℕ
  pub balance : ℕ

abbrev pub is_reply : Option ℕ → ℕ → Bool
is_reply none expected = false
is_reply (some credentials) expected = credentials == expected

-- The constructor; `reply` is the pool's answer to `withdrawalCredentials()`, if it gives one of 32
-- bytes.
unfoldable pub construct_forwarder :
    (has_code : ℕ → Bool) (pool : ℕ) (reply : Option ℕ) → (address balance : ℕ) → Result Forwarder
construct_forwarder has_code pool reply address balance = do
  refuse_if (pool == 0 || not (has_code pool)) invalid_pool
  guard (is_reply reply (2 ^ 248 + pool)) invalid_pool_withdrawal_credentials
  ok (record { address = address; balance = balance })

-- What a sweep leaves: the forwarder, the pool with its events, and the arguments of `Swept`.
pub record Sweep : Type 0 where
  pub forwarder : Forwarder
  pub pool : Outcome
  pub caller : ℕ
  pub amount : ℕ

-- The call of the pool, whose revert is the forwarder's.
abbrev pub or_sweep_failed : Result Outcome → Result Outcome
or_sweep_failed (ok o) = ok o
or_sweep_failed (err e) = err sweep_failed

unfoldable pub sweep : PoolConfig → Pool → Forwarder → (caller now : ℕ) → Result Sweep
sweep c p f caller now = do
  refuse_if (f.balance == 0) empty_balance
  o ← or_sweep_failed (receive_transfer c (receive_value p f.balance) f.address f.balance now)
  ok (record {
    forwarder = record f { balance = 0 };
    pool = o;
    caller = caller;
    amount = f.balance;
  })
