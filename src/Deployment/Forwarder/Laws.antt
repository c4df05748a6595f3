-- ===== src/Deployment/Forwarder/Laws.antt =====
-- A declared forwarder is never left unchecked.
use validator_funding_pool.Base.{
  ◌≡◌, ◌↔◌, ◌⊎◌, inl, inr, true, false, [], Option, none, some, arith, Bool-cases,
}
use validator_funding_pool.Decimal.{Text, is_empty}
use validator_funding_pool.Text.{same_hex}
use validator_funding_pool.Env.{Env, AddressTest, env_text}
use validator_funding_pool.Env.Laws.{is_empty_iff}
use validator_funding_pool.Failure.{ok}
use validator_funding_pool.Deployment.{DeploymentRecord}
use validator_funding_pool.Deployment.Forwarder.{
  declared_expected_forwarder, assert_expected_forwarder, assert_expected_forwarder_recorded,
}

-- `EXPECTED_FORWARDER` is unset or empty, or it is an address, and the record names that forwarder.
abbrev pub ForwarderExpected : AddressTest → Env → Option Text → Type 0
ForwarderExpected is_address env recorded =
    (env_text env "EXPECTED_FORWARDER" ≡ [])
    ⊎ ((f : Text) × (recorded ≡ some f)
        × (is_address false (env_text env "EXPECTED_FORWARDER") ≡ true)
        × (same_hex f (env_text env "EXPECTED_FORWARDER") ≡ true))

module _ (is_address : AddressTest) (env : Env) where
  unset :
      (is_empty (env_text env "EXPECTED_FORWARDER") ≡ true)
      ↔ (env_text env "EXPECTED_FORWARDER" ≡ [])
  unset = is_empty_iff (env_text env "EXPECTED_FORWARDER")

  declared_none :
      is_empty (env_text env "EXPECTED_FORWARDER") ≡ true
      → declared_expected_forwarder is_address env ≡ ok none
  unfolding declared_expected_forwarder
  declared_none e = ground arith

  declared_some :
      is_empty (env_text env "EXPECTED_FORWARDER") ≡ false
      → is_address false (env_text env "EXPECTED_FORWARDER") ≡ true
      → declared_expected_forwarder is_address env ≡ ok (some (env_text env "EXPECTED_FORWARDER"))
  unfolding declared_expected_forwarder
  declared_some e valid = ground arith

  -- The pin passes exactly when nothing is declared, or the declaration is an address and the record
  -- names that forwarder; a record without a forwarder does not satisfy a declaration.
  pub assert_expected_forwarder_recorded_iff :
      (d : DeploymentRecord)
      → (assert_expected_forwarder_recorded is_address env d ≡ ok tt)
        ↔ ForwarderExpected is_address env d.fee_recipient_forwarder
  unfolding assert_expected_forwarder_recorded assert_expected_forwarder declared_expected_forwarder
  assert_expected_forwarder_recorded_iff d = (sound, complete)
    where
      sound :
          assert_expected_forwarder_recorded is_address env d ≡ ok tt
          → ForwarderExpected is_address env d.fee_recipient_forwarder
      sound h = ground (arith, unset.0)

      complete :
          ForwarderExpected is_address env d.fee_recipient_forwarder
          → assert_expected_forwarder_recorded is_address env d ≡ ok tt
      complete (inl e) = ground (arith, declared_none (unset.1 e))
      complete (inr (f, named, valid, same)) =
          elim (Bool-cases (is_empty (env_text env "EXPECTED_FORWARDER"))) [
            | inl e ↦ ground (arith, declared_none e)
            | inr e ↦ ground (arith, declared_some e valid)
          ]
