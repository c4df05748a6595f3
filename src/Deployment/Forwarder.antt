-- ===== src/Deployment/Forwarder.antt =====
-- The forwarder that the record names and the pins on what is deployed (scripts/lib/common.ts, from
-- `declaredExpectedForwarder` to `assertForwarderPool`, and
-- `assertFreshDeploymentMatchesExpectedPool`).
pub mod Laws
use validator_funding_pool.Base.{Bool, true, false, Option, none, some}
use validator_funding_pool.Decimal.{Text, is_empty}
use validator_funding_pool.Text.{same_hex}
use validator_funding_pool.Env.{Env, AddressTest, env_text, declared_expected_pool}
use validator_funding_pool.Failure.{
  Result, ok, err, ◌>>=◌, ◌>>◌, guard, fresh_pool_declared, expected_forwarder_malformed,
  expected_forwarder_differs, forwarder_unrecorded, fresh_forwarder_declared,
  forwarder_pool_differs, record_without_forwarder, forwarder_differs,
}
use validator_funding_pool.Deployment.{DeploymentRecord}
use validator_funding_pool.Deployment.Live.{assert_has_code}

module _ (is_address : AddressTest) (env : Env) where
  -- `EXPECTED_FORWARDER`, if it is declared.
  unfoldable pub declared_expected_forwarder : Result (Option Text)
  declared_expected_forwarder =
      let declared = env_text env "EXPECTED_FORWARDER" in
      elim (is_empty declared) [
        | true ↦ ok none
        | false ↦
            guard (is_address false declared) expected_forwarder_malformed >> ok (some declared)
      ]

  -- The site of the check is only named in the message.
  unfoldable pub assert_expected_forwarder : Text → Result (Unit {0})
  assert_expected_forwarder forwarder = declared_expected_forwarder >>= λ expected. elim expected [
    | none ↦ ok tt
    | some f ↦ guard (same_hex forwarder f) expected_forwarder_differs
  ]

  abbrev pub recorded_forwarder : Option Text → Result (Unit {0})
  recorded_forwarder none = err forwarder_unrecorded
  recorded_forwarder (some f) = assert_expected_forwarder f

  -- `assertExpectedForwarderRecorded`
  unfoldable pub assert_expected_forwarder_recorded : DeploymentRecord → Result (Unit {0})
  assert_expected_forwarder_recorded deployment = declared_expected_forwarder >>= λ expected.
      elim expected [
        | none ↦ ok tt
        | some _ ↦ recorded_forwarder deployment.fee_recipient_forwarder
      ]

  -- `assertFreshForwarderMatchesExpectedForwarder`
  unfoldable pub assert_fresh_forwarder : Result (Unit {0})
  assert_fresh_forwarder = declared_expected_forwarder >>= λ expected. elim expected [
    | none ↦ ok tt
    | some _ ↦ err fresh_forwarder_declared
  ]

  -- `assertFreshDeploymentMatchesExpectedPool`
  unfoldable pub assert_fresh_pool : Text → Result (Unit {0})
  assert_fresh_pool pool = declared_expected_pool is_address env >>= λ expected. elim expected [
    | none ↦ ok tt
    | some p ↦ guard (same_hex pool p) fresh_pool_declared
  ]

abbrev pub assert_forwarder_pool : Text → Text → Result (Unit {0})
assert_forwarder_pool live deployed = guard (same_hex live deployed) forwarder_pool_differs

abbrev pub named_forwarder : Option Text → Result Text
named_forwarder none = err record_without_forwarder
named_forwarder (some f) = ok f

-- `assertFeeRecipientForwarderMatchesDeployment`, on the forwarder's address, the code there, and the
-- pool that it names.
unfoldable pub assert_forwarder_matches_deployment :
    (address : Text) (get_code : Text → Option Text) (live_pool : Text)
    → DeploymentRecord
    → Result Text
assert_forwarder_matches_deployment address get_code live_pool deployment = do
  forwarder ← named_forwarder deployment.fee_recipient_forwarder
  guard (same_hex address forwarder) forwarder_differs
  assert_has_code (get_code forwarder)
  assert_forwarder_pool live_pool deployment.pool
  ok live_pool
