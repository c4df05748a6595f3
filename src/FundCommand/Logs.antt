-- ===== src/FundCommand/Logs.antt =====
-- The events of the pool in the receipt of a payment, and what the check of the receipt makes of them
-- (scripts/lib/common.ts, `assertFundingWasCredited`; contracts/ValidatorFundingPool.sol).
use validator_funding_pool.Base.{ℕ, ◌≡◌, refl, ◌∙◌, true, [], ◌∷◌, Option, ==_iff, map}
use validator_funding_pool.Decimal.{Text}
use validator_funding_pool.Text.{same_hex}
use validator_funding_pool.Failure.{ok, err, credited_as_proceeds}
use validator_funding_pool.Receipt.{ObservedLog, FundingEvent, assert_funding_was_credited}
use validator_funding_pool.Receipt.Funding.{
  Credits, assert_funding_was_credited_iff, assert_funding_was_credited_proceeds,
}
use validator_funding_pool.Pool.{
  PoolConfig, Pool, PoolEvent, participant_funded, eth_received_via_call,
}
use validator_funding_pool.Pool.Arith.{snapshot}
use validator_funding_pool.FundCommand.Views.{funding_event}
use validator_funding_pool.FundCommand.Review.{TellsApart}

-- A log of the pool carries the pool's address, and viem decodes it to the event.
pub record WritesLogs (text : ℕ → Text) (c : PoolConfig) (log_of : PoolEvent → ObservedLog)
    (decode : ObservedLog → Option FundingEvent) : Type 0 where
  pub from_pool : (e : PoolEvent) → same_hex (log_of e).address (text c.self) ≡ true
  pub decoded : (e : PoolEvent) → decode (log_of e) ≡ funding_event text e

module _ (text : ℕ → Text) (c : PoolConfig) (log_of : PoolEvent → ObservedLog)
    (decode : ObservedLog → Option FundingEvent) (apart : TellsApart text)
    (w : WritesLogs text c log_of decode) (sender : ℕ) where
  same_sender : same_hex (text sender) (text sender) ≡ true
  same_sender = apart sender sender ∙ (==_iff sender sender).1 refl

  -- A snapshot is no credit.
  snapshot_no_credit :
      (p : Pool) (n : ℕ) → ¬ Credits decode (text c.self) (text sender) (log_of (snapshot p)) n
  snapshot_no_credit p n credit = cc (w.decoded (snapshot p), credit.decoded)

  pub credit_is_seen :
      (p : Pool) (attempt amount own all : ℕ)
      → assert_funding_was_credited decode
          (text c.self)
          (text sender)
          (map log_of (participant_funded attempt sender amount own all ∷ snapshot p ∷ []))
          amount
        ≡ ok tt
  credit_is_seen p attempt amount own all =
      let funded = participant_funded attempt sender amount own all in
      (assert_funding_was_credited_iff decode (text c.self) (text sender) _ amount).1 (record {
        before = [];
        element = log_of funded;
        after = log_of (snapshot p) ∷ [];
        parts = refl;
        holds = record {
          attempt = attempt;
          participant = text sender;
          participant_total = own;
          attempt_total = all;
          from_pool = w.from_pool funded;
          decoded = w.decoded funded;
          is_signer = same_sender;
        };
        none_before = tt;
        none_after = (snapshot_no_credit p, tt);
      })

  pub proceeds_are_seen :
      (amount : ℕ)
      → assert_funding_was_credited decode
          (text c.self)
          (text sender)
          (map log_of (eth_received_via_call sender amount ∷ []))
          amount
        ≡ err credited_as_proceeds
  proceeds_are_seen amount =
      let taken = eth_received_via_call sender amount in
      assert_funding_was_credited_proceeds decode (text c.self) (text sender) _ amount amount
        (record {
          before = [];
          element = log_of taken;
          after = [];
          parts = refl;
          holds = record {
            sender = text sender;
            from_pool = w.from_pool taken;
            decoded = w.decoded taken;
            is_signer = same_sender;
          };
          none_before = tt;
          none_after = tt;
        })
        ((λ n credit. cc (w.decoded taken, credit.decoded)), tt)
