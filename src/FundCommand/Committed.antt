-- ===== src/FundCommand/Committed.antt =====
-- The committed validator data against the deposit-data file, at the start of the `fund` command
-- (scripts/fund.ts).
use validator_funding_pool.Base.{◌≡◌, refl, Bool, true, false, none, some, arith}
use validator_funding_pool.Decimal.{Text}
use validator_funding_pool.Text.{same_hex}
use validator_funding_pool.Env.{Env}
use validator_funding_pool.Failure.{
  Failure, Result, ok, ◌>>=◌, ◌>>◌, guard, committed_pubkey_differs, committed_root_differs,
  committed_signature_differs, Ensures, returned, thrown, bind-Ensures, Ensures-sound,
}
use validator_funding_pool.Deposit.{DepositData}
use validator_funding_pool.Deposit.Validate.{Consensus, ValidDeposit, validate_deposit_data}
use validator_funding_pool.Deposit.Validate.Laws.{IsDeposit, validate_deposit_data-Ensures}

-- What the pool has committed to.
pub record CommittedData : Type 0 where
  pub pubkey : Text
  pub predeposit_root : Text
  pub top_up_root : Text
  pub predeposit_signature : Text
  pub top_up_signature : Text

unfoldable pub assert_committed_data :
    CommittedData → (predeposit top_up : ValidDeposit) → Result (Unit {0})
assert_committed_data committed predeposit top_up = do
  guard (same_hex committed.pubkey predeposit.pubkey) committed_pubkey_differs
  guard (same_hex committed.predeposit_root predeposit.deposit_data_root) committed_root_differs
  guard (same_hex committed.top_up_root top_up.deposit_data_root) committed_root_differs
  guard (same_hex committed.predeposit_signature predeposit.signature) committed_signature_differs
  guard (same_hex committed.top_up_signature top_up.signature) committed_signature_differs

-- The predeposit and the top-up, validated for the same key.
unfoldable pub validate_committed_deposits :
    Consensus
    → Env
    → (predeposit top_up : DepositData) → (credentials chain : Text) → CommittedData
    → Result (ValidDeposit × ValidDeposit)
validate_committed_deposits lib env predeposit top_up credentials chain committed = do
  first ← validate_deposit_data lib env predeposit credentials chain none 1_000_000_000
  second ← validate_deposit_data lib env top_up credentials chain (some first.pubkey) 31_000_000_000
  assert_committed_data committed first second
  ok (first, second)

-- The pool is committed to these two deposits.
pub record IsCommitted (committed : CommittedData) (first second : ValidDeposit) : Type 0 where
  pubkey : same_hex committed.pubkey first.pubkey ≡ true
  predeposit_root : same_hex committed.predeposit_root first.deposit_data_root ≡ true
  top_up_root : same_hex committed.top_up_root second.deposit_data_root ≡ true
  predeposit_signature : same_hex committed.predeposit_signature first.signature ≡ true
  top_up_signature : same_hex committed.top_up_signature second.signature ≡ true

-- The rule for a check that is the last statement.
guard-Ensures :
    {P : Type 0} (b : Bool) (e : Failure) → (b ≡ true → P) → Ensures (λ done. P) (guard b e)
guard-Ensures true e h = returned (h refl)
guard-Ensures false e h = thrown

assert_committed_data-Ensures :
    (committed : CommittedData) (first second : ValidDeposit)
    → Ensures
        (λ done. IsCommitted committed first second)
        (assert_committed_data committed first second)
unfolding assert_committed_data
assert_committed_data-Ensures committed first second =
    bind-Ensures (guard (same_hex committed.pubkey first.pubkey) committed_pubkey_differs) _
      λ _ key.
        bind-Ensures
          (guard (same_hex committed.predeposit_root first.deposit_data_root)
            committed_root_differs)
          _
          λ _ root.
            bind-Ensures
              (guard (same_hex committed.top_up_root second.deposit_data_root)
                committed_root_differs)
              _
              λ _ second_root.
                bind-Ensures
                  (guard (same_hex committed.predeposit_signature first.signature)
                    committed_signature_differs)
                  _
                  λ _ signature.
                    guard-Ensures (same_hex committed.top_up_signature second.signature)
                      committed_signature_differs
                      λ last_signature. record {
                        pubkey = ground arith;
                        predeposit_root = ground arith;
                        top_up_root = ground arith;
                        predeposit_signature = ground arith;
                        top_up_signature = last_signature;
                      }

validate_committed_deposits-Ensures :
    (lib : Consensus) (env : Env) (predeposit top_up : DepositData) (credentials chain : Text)
    (committed : CommittedData)
    → Ensures
        (λ found.
          IsDeposit lib predeposit credentials chain none 1_000_000_000 found.0
          × IsDeposit lib top_up credentials chain (some found.0.pubkey) 31_000_000_000 found.1
          × IsCommitted committed found.0 found.1)
        (validate_committed_deposits lib env predeposit top_up credentials chain committed)
unfolding validate_committed_deposits
validate_committed_deposits-Ensures lib env predeposit top_up credentials chain committed =
    bind-Ensures (validate_deposit_data lib env predeposit credentials chain none 1_000_000_000) _
      λ first valid.
        bind-Ensures
          (validate_deposit_data lib env top_up credentials chain (some first.pubkey)
            31_000_000_000)
          _
          λ second also_valid.
            bind-Ensures (assert_committed_data committed first second) _ λ a matched. returned (
              Ensures-sound
                  (validate_deposit_data-Ensures lib env predeposit credentials chain none
                    1_000_000_000)
                  first valid,
              Ensures-sound
                  (validate_deposit_data-Ensures lib env top_up credentials chain
                    (some first.pubkey) 31_000_000_000)
                  second also_valid,
              Ensures-sound (assert_committed_data-Ensures committed first second) a matched,
            )

-- The pool's committed key, roots and signatures are, up to case, those of a deposit of 1 ether and
-- one of 31 ether of the same key, to the expected credentials and on the expected chain, whose roots
-- and signatures are those of their own data.
pub validate_committed_deposits_sound :
    (lib : Consensus) (env : Env) (predeposit top_up : DepositData) (credentials chain : Text)
    (committed : CommittedData) (first second : ValidDeposit)
    → validate_committed_deposits lib env predeposit top_up credentials chain committed
      ≡ ok (first, second)
    → IsDeposit lib predeposit credentials chain none 1_000_000_000 first
      × IsDeposit lib top_up credentials chain (some first.pubkey) 31_000_000_000 second
      × IsCommitted committed first second
validate_committed_deposits_sound lib env predeposit top_up credentials chain committed first second
      h =
    Ensures-sound
      (validate_committed_deposits-Ensures lib env predeposit top_up credentials chain committed)
      (first, second) h
