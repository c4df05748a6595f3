-- ===== src/Pins/Laws.antt =====
-- `assertFundingPins` passes exactly when each declared pin agrees with the pool.
use validator_funding_pool.Base.{
  ℕ, ◌*◌, ◌≤◌, ◌≡◌, ◌↔◌, ◌⊎◌, inl, inr, Bool, true, String, [], Option, none, some, arith, leb,
  ◌==◌,
}
use validator_funding_pool.Decimal.{decimal}
use validator_funding_pool.Env.{Env, env_text, optional_env_big_int}
use validator_funding_pool.Env.Laws.{optional_env_big_int-some, optional_env_big_int-none}
use validator_funding_pool.Failure.{
  Failure, Result, ok, ◌>>=◌, >>=-eq-ok, attempt_differs, deadline_after, caller_target_differs,
  operator_target_differs,
}
use validator_funding_pool.Pins.{FundingPinnedValues, gwei_wei, where_declared, assert_funding_pins}

-- A variable is unset or empty, or it holds the canonical numeral of a number that agrees.
abbrev pub Agrees : Env → String → (ℕ → Type 0) → Type 0
Agrees env name P = (env_text env name ≡ []) ⊎ ((n : ℕ) × (env_text env name ≡ decimal n) × P n)

module _ (env : Env) (name : String) (test : ℕ → Bool) (e : Failure) where
  pin : Result (Unit {0})
  pin = optional_env_big_int env name >>= λ declared. where_declared test e declared

  pin_iff : (P : ℕ → Type 0) → ((n : ℕ) → (test n ≡ true) ↔ P n) → (pin ≡ ok tt) ↔ Agrees env name P
  unfolding pin
  pin_iff P test_iff = (sound, complete)
    where
      read :
          (o : Option ℕ)
          → optional_env_big_int env name ≡ ok o
          → where_declared test e o ≡ ok tt
          → Agrees env name P
      read none r h = inl ((optional_env_big_int-none env name).0 r)
      read (some n) r h =
          inr (n, (optional_env_big_int-some env name n).0 r, (test_iff n).0 (ground arith))

      sound : pin ≡ ok tt → Agrees env name P
      sound h =
          let (o, r, k) =
            >>=-eq-ok (optional_env_big_int env name) (λ o. where_declared test e o) h in
          read o r k

      complete : Agrees env name P → pin ≡ ok tt
      complete (inl unset) = rw ((optional_env_big_int-none env name).1 unset)
      complete (inr (n, text, p)) =
          rw ((optional_env_big_int-some env name n).1 text, (test_iff n).1 p)

-- Each declared pin agrees with the pool: the attempt, the deadline, and the two targets.
pub record PinsHold (env : Env) (pinned : FundingPinnedValues) : Type 0 where
  pub attempt : Agrees env "EXPECTED_FUNDING_ATTEMPT" (λ n. n ≡ pinned.funding_attempt)
  pub deadline : Agrees env "EXPECTED_DEADLINE_BEFORE" (λ n. pinned.funding_deadline ≤ n)
  pub caller : Agrees env "EXPECTED_MY_TARGET_GWEI" (λ n. pinned.caller_target_wei ≡ n * gwei_wei)
  pub operator :
      Agrees env "EXPECTED_OPERATOR_TARGET_GWEI" (λ n. pinned.operator_target_wei ≡ n * gwei_wei)

module _ (env : Env) (pinned : FundingPinnedValues) where
  attempt_pin : Result (Unit {0})
  attempt_pin =
      pin env "EXPECTED_FUNDING_ATTEMPT" (λ n. n == pinned.funding_attempt) attempt_differs

  deadline_pin : Result (Unit {0})
  deadline_pin =
      pin env "EXPECTED_DEADLINE_BEFORE" (λ n. leb pinned.funding_deadline n) deadline_after

  caller_pin : Result (Unit {0})
  caller_pin =
      pin env "EXPECTED_MY_TARGET_GWEI" (λ n. pinned.caller_target_wei == n * gwei_wei)
        caller_target_differs

  operator_pin : Result (Unit {0})
  operator_pin =
      pin env "EXPECTED_OPERATOR_TARGET_GWEI" (λ n. pinned.operator_target_wei == n * gwei_wei)
        operator_target_differs

  pins_split : (assert_funding_pins env pinned ≡ ok tt) ↔ (
      (attempt_pin ≡ ok tt)
      × (deadline_pin ≡ ok tt)
      × (caller_pin ≡ ok tt)
      × (operator_pin ≡ ok tt))
  unfolding assert_funding_pins pin attempt_pin deadline_pin caller_pin operator_pin
  pins_split = (λ h. ground arith, λ h. ground arith)

  -- The pins pass exactly when each variable is unset or empty, or holds a number that agrees.
  pub assert_funding_pins_iff : (assert_funding_pins env pinned ≡ ok tt) ↔ PinsHold env pinned
  unfolding attempt_pin deadline_pin caller_pin operator_pin
  assert_funding_pins_iff = (
    λ h.
        let (a, d, c, o) = pins_split.0 h in
        record {
          attempt = attempt_iff.0 a;
          deadline = deadline_iff.0 d;
          caller = caller_iff.0 c;
          operator = operator_iff.0 o;
        },
    λ h. pins_split.1 (
      attempt_iff.1 h.attempt,
      deadline_iff.1 h.deadline,
      caller_iff.1 h.caller,
      operator_iff.1 h.operator,
    ),
  )
    where
      attempt_iff :
          (attempt_pin ≡ ok tt)
          ↔ Agrees env "EXPECTED_FUNDING_ATTEMPT" (λ n. n ≡ pinned.funding_attempt)
      attempt_iff = pin_iff env _ _ _ _ (λ n. (λ h. ground arith, λ h. ground arith))

      deadline_iff :
          (deadline_pin ≡ ok tt)
          ↔ Agrees env "EXPECTED_DEADLINE_BEFORE" (λ n. pinned.funding_deadline ≤ n)
      deadline_iff = pin_iff env _ _ _ _ (λ n. (λ h. ground arith, λ h. ground arith))

      caller_iff :
          (caller_pin ≡ ok tt)
          ↔ Agrees env "EXPECTED_MY_TARGET_GWEI" (λ n. pinned.caller_target_wei ≡ n * gwei_wei)
      caller_iff = pin_iff env _ _ _ _ (λ n. (λ h. ground arith, λ h. ground arith))

      operator_iff :
          (operator_pin ≡ ok tt)
          ↔ Agrees env "EXPECTED_OPERATOR_TARGET_GWEI"
              (λ n. pinned.operator_target_wei ≡ n * gwei_wei)
      operator_iff = pin_iff env _ _ _ _ (λ n. (λ h. ground arith, λ h. ground arith))
