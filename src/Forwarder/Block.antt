-- ===== src/Forwarder/Block.antt =====
-- A sweep among the other calls of its block passes the check of the `sweep` command
-- (scripts/lib/common.ts, `assertSweepWasCredited`; contracts/FeeRecipientForwarder.sol).
use validator_funding_pool.Base.{
  ℕ, ◌+◌, ◌≤◌, ◌≡◌, refl, sym, true, List, [], ◌∷◌, ◌++◌, Option, none, some, arith, ◌==◌, map, All,
}
use mathlib.Core.Path.{subst}
use validator_funding_pool.Text.{same_hex}
use validator_funding_pool.Failure.{
  Result, ok, err, refuse_if, empty_balance, Ensures, returned, thrown, bind-Ensures, Ensures-sound,
}
use validator_funding_pool.Receipt.{
  ObservedLog, SweptEvent, OutflowEvent, decode_pool_outflows, assert_sweep_was_credited,
}
use validator_funding_pool.Text.Laws.{same_hex_refl}
use validator_funding_pool.Receipt.OnlyOne.{OnlyOne}
use validator_funding_pool.Forwarder.Logs.{Writing, WritesOutflows, decode_pool_outflows-out_of}
use validator_funding_pool.Receipt.Sweep.{Sweeps, assert_sweep_was_credited_iff}
use validator_funding_pool.Pool.{PoolConfig, Pool, PoolEvent, Outcome, receive_value}
use validator_funding_pool.Pool.Payout.{receive_transfer}
use validator_funding_pool.Pool.Call.{Message, exec}
use validator_funding_pool.Pool.Call.Outflows.{out_of, out_of-append}
use validator_funding_pool.Pool.Call.Outflows.Calls.{exec-Accounts, receive-Accounts}
use validator_funding_pool.Forwarder.{Forwarder, Sweep, or_sweep_failed, sweep}

-- Calls of the pool, with all the events that they emit.
pub data Runs (keccak256 : List ℕ → ℕ) (c : PoolConfig)
    : Pool → List PoolEvent → Pool → Type 0 where
  nothing : {p : Pool} → Runs keccak256 c p [] p
  call_then :
      {p q r : Pool} {es fs : List PoolEvent} (m : Message)
      → exec keccak256 c p m ≡ ok (q, es)
      → Runs keccak256 c q fs r
      → Runs keccak256 c p (es ++ fs) r

Runs-Accounts :
    (keccak256 : List ℕ → ℕ) (c : PoolConfig) (p q : Pool) (es : List PoolEvent)
    → Runs keccak256 c p es q
    → p.balance ≤ q.balance + out_of es
Runs-Accounts keccak256 c p q es nothing = omega arith
Runs-Accounts keccak256 c p q fs (call_then {q = r} {es = first} {fs = rest} m step others) =
    omega (
      arith,
      Ensures-sound (exec-Accounts keccak256 c p m) (r, first) step,
      Runs-Accounts keccak256 c r q rest others,
      out_of-append first rest,
    )

module _ (c : PoolConfig) (p : Pool) (f : Forwarder) (caller now : ℕ) where
  -- A sweep adds the forwarder's balance to the pool's.
  record IsSwept (s : Sweep) : Type 0 where
    all_sent : s.amount ≡ f.balance
    by_caller : s.caller ≡ caller
    arrived : p.balance + f.balance ≤ s.pool.0.balance + out_of s.pool.1

  or_sweep_failed-Ensures :
      {P : Outcome → Type 0} (r : Result Outcome) → Ensures P r → Ensures P (or_sweep_failed r)
  or_sweep_failed-Ensures (ok o) e = e
  or_sweep_failed-Ensures (err failure) e = thrown

  sweep-IsSwept : Ensures IsSwept (sweep c p f caller now)
  unfolding sweep
  sweep-IsSwept =
      let call = receive_transfer c (receive_value p f.balance) f.address f.balance now in
      bind-Ensures (refuse_if (f.balance == 0) empty_balance) _ λ _ _.
        bind-Ensures (or_sweep_failed call) _ λ o reached. returned (record {
          all_sent = refl;
          by_caller = refl;
          arrived =
              Ensures-sound
                (or_sweep_failed-Ensures call (receive-Accounts c p f.address f.balance now)) o
                reached;
        })

-- The log of `Swept`; no event of the pool is decoded as one.
pub record WritesSwept (w : Writing) (f : Forwarder) (log_of : PoolEvent → ObservedLog)
    (swept_log : (caller amount : ℕ) → ObservedLog) (decode : ObservedLog → Option SweptEvent)
    : Type 0 where
  pub from_forwarder :
      (caller amount : ℕ) → same_hex (swept_log caller amount).address (w.address f.address) ≡ true
  pub decoded :
      (caller amount : ℕ)
      → decode (swept_log caller amount)
        ≡ some (record { caller = w.address caller; amount = amount })
  pub others : (e : PoolEvent) → decode (log_of e) ≡ none

module _ (w : Writing) (f : Forwarder) (log_of : PoolEvent → ObservedLog)
    (swept_log : (caller amount : ℕ) → ObservedLog) (decode : ObservedLog → Option SweptEvent)
    (writes : WritesSwept w f log_of swept_log decode) (caller : ℕ) where
  none_swept :
      (es : List PoolEvent)
      → All
          (λ log. (n : ℕ) → ¬ Sweeps decode (w.address f.address) (w.address caller) log n)
          (map log_of es)
  none_swept [] = tt
  none_swept (e ∷ es) = ((λ n s. cc (writes.others e, s.decoded)), none_swept es)

  -- The receipt of a sweep names it once.
  only_sweep :
      (amount : ℕ) (es : List PoolEvent)
      → OnlyOne
          (Sweeps decode (w.address f.address) (w.address caller))
          (swept_log caller amount ∷ map log_of es)
          amount
  only_sweep amount es = record {
    before = [];
    element = swept_log caller amount;
    after = map log_of es;
    parts = refl;
    holds = record {
      caller = w.address caller;
      from_forwarder = writes.from_forwarder caller amount;
      decoded = writes.decoded caller amount;
      is_signer = same_hex_refl (w.address caller);
    };
    none_before = tt;
    none_after = none_swept es;
  }

-- A sweep among any other calls of the pool in its block passes the check of the sweep command,
-- with the balances before and after the block and the outflows read from the logs of the block, if
-- the forwarder held at least what was read before: no call takes ether out of the pool that its
-- events do not say.
pub sweep-assert_sweep_was_credited :
    (keccak256 : List ℕ → ℕ) (c : PoolConfig) (w : Writing) (f : Forwarder)
    (log_of : PoolEvent → ObservedLog) (swept_log : (caller amount : ℕ) → ObservedLog)
    (decode : ObservedLog → Option SweptEvent) (decode_out : ObservedLog → Option OutflowEvent)
    (start p q : Pool) (earlier later : List PoolEvent) (caller now forwarder_before : ℕ)
    (s : Sweep)
    → WritesSwept w f log_of swept_log decode
    → WritesOutflows w c log_of decode_out
    → Runs keccak256 c start earlier p
    → sweep c p f caller now ≡ ok s
    → Runs keccak256 c s.pool.0 later q
    → forwarder_before ≤ f.balance
    → assert_sweep_was_credited decode
        (w.address f.address)
        (w.address caller)
        (swept_log s.caller s.amount ∷ map log_of s.pool.1)
        (record {
          forwarder_before = forwarder_before;
          pool_before = start.balance;
          pool_after = q.balance;
          same_block_outflows =
              decode_pool_outflows decode_out
                (w.address c.self)
                (map log_of (earlier ++ s.pool.1 ++ later));
        })
      ≡ ok tt
sweep-assert_sweep_was_credited keccak256 c w f log_of swept_log decode decode_out start p q earlier
      later caller now forwarder_before s writes outflows before_it swept after_it held =
    let done = Ensures-sound (sweep-IsSwept c p f caller now) s swept in
    let all_events = earlier ++ s.pool.1 ++ later in
    let one =
      subst
        (λ who.
          OnlyOne (Sweeps decode (w.address f.address) (w.address caller))
            (swept_log who s.amount ∷ map log_of s.pool.1) s.amount)
        (sym done.by_caller)
        (only_sweep w f log_of swept_log decode writes caller s.amount s.pool.1) in
    (assert_sweep_was_credited_iff decode (w.address f.address) (w.address caller) _ _).1 (
      s.amount,
      one,
      omega (arith, done.all_sent, held),
      omega (
        arith,
        Runs-Accounts keccak256 c start p earlier before_it,
        Runs-Accounts keccak256 c s.pool.0 q later after_it,
        done.arrived,
        decode_pool_outflows-out_of w c log_of decode_out outflows all_events,
        out_of-append (earlier ++ s.pool.1) later,
        out_of-append earlier s.pool.1,
        held,
      ),
    )
