-- ===== src/Pins/Fundable.antt =====
-- `assertStillFundable` passes exactly when the reviewed attempt is still open for the amount.
use validator_funding_pool.Base.{
  ℕ, ◌≤◌, ◌<◌, ◌≡◌, ◌↔◌, ◌⊎◌, inl, inr, true, false, [], arith, Bool-cases,
}
use validator_funding_pool.Decimal.{Text, is_empty}
use validator_funding_pool.Text.{same_hex}
use validator_funding_pool.Env.{Env, AddressTest, env_text, assert_expected_pool}
use validator_funding_pool.Env.Laws.{is_empty_iff}
use validator_funding_pool.Failure.{ok}
use validator_funding_pool.Pins.{
  FundingState, pinned_values, state_funding, assert_funding_pins, assert_still_fundable,
}
use validator_funding_pool.Pins.Laws.{PinsHold, assert_funding_pins_iff}

-- `EXPECTED_POOL` is unset or empty, or it is an address, and the pool's.
abbrev pub PoolExpected : AddressTest → Env → Text → Type 0
PoolExpected is_address env pool =
    (env_text env "EXPECTED_POOL" ≡ [])
    ⊎ ((is_address false (env_text env "EXPECTED_POOL") ≡ true)
        × (same_hex pool (env_text env "EXPECTED_POOL") ≡ true))

module _ (is_address : AddressTest) (env : Env) where
  -- The pin on the pool passes exactly when `EXPECTED_POOL` is unset or empty, or is the pool's
  -- address.
  pub assert_expected_pool_iff :
      (pool : Text)
      → (assert_expected_pool is_address env pool ≡ ok tt) ↔ PoolExpected is_address env pool
  unfolding assert_expected_pool
  assert_expected_pool_iff pool =
      (λ h. ground (arith, (is_empty_iff (env_text env "EXPECTED_POOL")).0), complete)
    where
      complete : PoolExpected is_address env pool → assert_expected_pool is_address env pool ≡ ok tt
      complete (inl unset) = rw unset
      complete (inr (valid, same)) = elim (Bool-cases (is_empty (env_text env "EXPECTED_POOL"))) [
        | inl e ↦ rw e
        | inr e ↦ rw (e, valid, same)
      ]

  -- The attempt that was reviewed is open, in time, and has room for the amount.
  pub record StillOpen (s : FundingState) (amount reviewed_attempt : ℕ) : Type 0 where
    pub pool : PoolExpected is_address env s.pool
    pub funding : s.state ≡ state_funding
    pub same_attempt : s.funding_attempt ≡ reviewed_attempt
    pub in_time : s.timestamp < s.funding_deadline
    pub room : amount ≤ s.remaining
    pub pins : PinsHold env (pinned_values s)

  fundable_split :
      (s : FundingState) (amount reviewed_attempt : ℕ)
      → (assert_still_fundable is_address env s amount reviewed_attempt ≡ ok tt) ↔ (
          (assert_expected_pool is_address env s.pool ≡ ok tt)
          × (s.state ≡ state_funding)
          × (s.funding_attempt ≡ reviewed_attempt)
          × (s.timestamp < s.funding_deadline)
          × (amount ≤ s.remaining)
          × (assert_funding_pins env (pinned_values s) ≡ ok tt))
  unfolding assert_still_fundable
  fundable_split s amount reviewed_attempt = (λ h. ground arith, λ h. ground arith)

  -- The final check passes exactly when the pool is the expected one, it is in its funding state, the
  -- attempt is the reviewed one, the deadline is ahead, the cap has room for the amount, and the pins
  -- hold.
  pub assert_still_fundable_iff :
      (s : FundingState) (amount reviewed_attempt : ℕ)
      → (assert_still_fundable is_address env s amount reviewed_attempt ≡ ok tt)
        ↔ StillOpen s amount reviewed_attempt
  assert_still_fundable_iff s amount reviewed_attempt =
      let (split, join) = fundable_split s amount reviewed_attempt in
      (
        λ h.
            let (p, f, a, t, r, pins) = split h in
            record {
              pool = (assert_expected_pool_iff s.pool).0 p;
              funding = f;
              same_attempt = a;
              in_time = t;
              room = r;
              pins = (assert_funding_pins_iff env (pinned_values s)).0 pins;
            },
        λ o. join (
          (assert_expected_pool_iff s.pool).1 o.pool,
          o.funding,
          o.same_attempt,
          o.in_time,
          o.room,
          (assert_funding_pins_iff env (pinned_values s)).1 o.pins,
        ),
      )
