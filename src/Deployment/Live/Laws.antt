-- ===== src/Deployment/Live/Laws.antt =====
-- What the comparison with the pool and with the canonical contracts establishes.
use validator_funding_pool.Base.{ℕ, ◌≡◌, ◌↔◌, true, Option, some, arith}
use validator_funding_pool.Decimal.{Text, decimal, big_int}
use validator_funding_pool.Decimal.RoundTrip.{decimal_injective}
use validator_funding_pool.Text.{same_text, same_hex}
use validator_funding_pool.Text.Laws.{same_text_iff}
use validator_funding_pool.Env.{AddressTest}
use validator_funding_pool.Failure.{
  ok, guard, code_hash_differs, credentials_not_derived, Ensures, returned, bind-Ensures,
  Ensures-sound,
}
use validator_funding_pool.Deployment.{DeploymentRecord}
use validator_funding_pool.Deployment.Live.{
  derive_withdrawal_credentials, PoolDeploymentConfig, assert_text_field, assert_number_field,
  assert_deployment_matches_pool, code_hash, assert_deployment_system_code_hashes,
  canonical_system_contracts, CanonicalSystemContracts, assert_canonical,
  assert_deployment_canonicity,
}

-- The configuration that a command goes on with: the pool's answers agree with the record, and the
-- credentials are the ones derived from the pool's address.
pub record MatchesRecord (is_address : AddressTest) (reported : PoolDeploymentConfig)
    (d : DeploymentRecord) (live : PoolDeploymentConfig) : Type 0 where
  pub derived : derive_withdrawal_credentials is_address d.pool ≡ ok live.withdrawal_credentials
  pub credentials : same_hex reported.withdrawal_credentials live.withdrawal_credentials ≡ true
  pub recorded : same_hex reported.withdrawal_credentials d.withdrawal_credentials ≡ true
  pub deposit : same_hex live.deposit_contract d.deposit_contract ≡ true
  pub predeploy : same_hex live.withdrawal_request_predeploy d.withdrawal_request_predeploy ≡ true
  pub operator : same_hex live.operator d.operator ≡ true
  pub window : live.funding_window_duration ≡ big_int d.funding_window_duration

number_field_sound : (m n : ℕ) → assert_number_field m n ≡ ok tt → m ≡ n
number_field_sound m n h =
    let same : same_text (decimal m) (decimal n) ≡ true = ground arith in
    decimal_injective m n ((same_text_iff (decimal m) (decimal n)).0 same)

module _ (is_address : AddressTest) (reported : PoolDeploymentConfig) (d : DeploymentRecord) where
  matches-Ensures :
      Ensures
        (MatchesRecord is_address reported d)
        (assert_deployment_matches_pool is_address reported d)
  unfolding assert_deployment_matches_pool
  matches-Ensures = bind-Ensures (derive_withdrawal_credentials is_address d.pool) _ λ derived e.
      bind-Ensures
        (guard (same_hex reported.withdrawal_credentials derived) credentials_not_derived) _
        λ _ own.
          bind-Ensures (assert_text_field reported.deposit_contract d.deposit_contract) _
            λ _ deposit.
              bind-Ensures
                (assert_text_field reported.withdrawal_request_predeploy
                  d.withdrawal_request_predeploy)
                _
                λ _ predeploy.
                  bind-Ensures (assert_text_field reported.operator d.operator) _ λ _ operator.
                    bind-Ensures
                      (assert_text_field reported.withdrawal_credentials d.withdrawal_credentials) _
                      λ _ recorded.
                        bind-Ensures
                          (assert_number_field reported.funding_window_duration
                            (big_int d.funding_window_duration))
                          _
                          λ _ window. returned (record {
                            derived = e;
                            credentials = ground arith;
                            recorded = ground arith;
                            deposit = ground arith;
                            predeploy = ground arith;
                            operator = ground arith;
                            window = number_field_sound _ _ window;
                          })

  -- The configuration that the comparison returns agrees with the record in every field, and its
  -- credentials are the ones derived from the pool's own address, whatever the pool reports.
  pub assert_deployment_matches_pool_sound :
      (live : PoolDeploymentConfig)
      → assert_deployment_matches_pool is_address reported d ≡ ok live
      → MatchesRecord is_address reported d live
  assert_deployment_matches_pool_sound live h = Ensures-sound matches-Ensures live h

module _ (keccak256 : Text → Text) (get_code : Text → Option Text) where
  -- The code of the two system contracts hashes to what the record says.
  pub record HashesMatch (d : DeploymentRecord) (live : PoolDeploymentConfig) (hashes : Text × Text)
      : Type 0 where
    pub deposit : code_hash keccak256 get_code live.deposit_contract ≡ ok hashes.0
    pub predeploy : code_hash keccak256 get_code live.withdrawal_request_predeploy ≡ ok hashes.1
    pub deposit_recorded : same_hex hashes.0 d.deposit_contract_code_hash ≡ true
    pub predeploy_recorded : same_hex hashes.1 d.withdrawal_request_predeploy_code_hash ≡ true

  -- The hashes are returned exactly when both contracts have code that hashes to the record's values.
  pub assert_deployment_system_code_hashes_iff :
      (d : DeploymentRecord) (live : PoolDeploymentConfig) (hashes : Text × Text)
      → (assert_deployment_system_code_hashes keccak256 get_code d live ≡ ok hashes)
        ↔ HashesMatch d live hashes
  unfolding assert_deployment_system_code_hashes
  assert_deployment_system_code_hashes_iff d live hashes = (
    λ h. Ensures-sound hashes-Ensures hashes h,
    λ m. rw (m.deposit, m.deposit_recorded, m.predeploy, m.predeploy_recorded),
  )
    where
      hashes-Ensures :
          Ensures
            (HashesMatch d live)
            (assert_deployment_system_code_hashes keccak256 get_code d live)
      hashes-Ensures =
          bind-Ensures (code_hash keccak256 get_code live.deposit_contract) _ λ deposit e.
            bind-Ensures (guard (same_hex deposit d.deposit_contract_code_hash) code_hash_differs) _
              λ _ same.
                bind-Ensures (code_hash keccak256 get_code live.withdrawal_request_predeploy) _
                  λ predeploy f.
                    bind-Ensures
                      (guard (same_hex predeploy d.withdrawal_request_predeploy_code_hash)
                        code_hash_differs)
                      _
                      λ _ also. returned (record {
                        deposit = e;
                        predeploy = f;
                        deposit_recorded = ground arith;
                        predeploy_recorded = ground arith;
                      })

-- On a chain with canonical system contracts, the check passes exactly when both addresses and both
-- hashes are the canonical ones.
pub assert_deployment_canonicity_iff :
    (chain_id : ℕ) (live : PoolDeploymentConfig) (hashes : Text × Text)
    (c : CanonicalSystemContracts)
    → canonical_system_contracts chain_id ≡ some c
    → (assert_deployment_canonicity chain_id live hashes ≡ ok tt) ↔ (
        (same_hex live.deposit_contract c.deposit_contract ≡ true)
        × (same_hex live.withdrawal_request_predeploy c.withdrawal_request_predeploy ≡ true)
        × (same_hex hashes.0 c.deposit_contract_code_hash ≡ true)
        × (same_hex hashes.1 c.withdrawal_request_predeploy_code_hash ≡ true))
unfolding assert_deployment_canonicity
assert_deployment_canonicity_iff chain_id live hashes c pinned =
    (λ h. checks (rw pinned at h), λ (d, p, dh, ph). rw (pinned, d, p, dh, ph))
  where
    checks :
        assert_canonical (some c) live hashes ≡ ok tt
        → (same_hex live.deposit_contract c.deposit_contract ≡ true)
          × (same_hex live.withdrawal_request_predeploy c.withdrawal_request_predeploy ≡ true)
          × (same_hex hashes.0 c.deposit_contract_code_hash ≡ true)
          × (same_hex hashes.1 c.withdrawal_request_predeploy_code_hash ≡ true)
    checks h = ground arith
