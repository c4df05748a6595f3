-- ===== src/Receipt/Funding.antt =====
-- `assertFundingWasCredited` accepts a receipt exactly when the pool credits the signer once, with
-- the amount sent.
use validator_funding_pool.Base.{
  ℕ, ◌≡◌, refl, ◌↔◌, inl, inr, true, List, [], ◌∷◌, ◌++◌, Option, none, some, arith, ==_iff, All,
  foldl, Bool-cases, if◌then◌else◌,
}
use validator_funding_pool.Decimal.{Text}
use validator_funding_pool.Text.{same_hex}
use validator_funding_pool.Failure.{ok, err, credited_as_proceeds}
use validator_funding_pool.Receipt.{
  ObservedLog, FundingEvent, participant_funded, eth_received_via_call, event_of, note_funding,
  funding_verdict, assert_funding_was_credited,
}
use validator_funding_pool.Receipt.OnlyOne.{
  picks, foldl-picks, OnlyOne, OnlyOne-sound, OnlyOne-complete, nothing_picked,
}

module _ (decode : ObservedLog → Option FundingEvent) (pool signer : Text) where
  -- A log of the pool that says that the signer was credited with an amount.
  pub record Credits (log : ObservedLog) (amount : ℕ) : Type 0 where
    pub attempt : ℕ
    pub participant : Text
    pub participant_total : ℕ
    pub attempt_total : ℕ
    pub from_pool : same_hex log.address pool ≡ true
    pub decoded :
        decode log
        ≡ some (participant_funded attempt participant amount participant_total attempt_total)
    pub is_signer : same_hex participant signer ≡ true

  -- A log of the pool that says that it took an amount of the signer as proceeds.
  pub record Accepts (log : ObservedLog) (amount : ℕ) : Type 0 where
    pub sender : Text
    pub from_pool : same_hex log.address pool ≡ true
    pub decoded : decode log ≡ some (eth_received_via_call sender amount)
    pub is_signer : same_hex sender signer ≡ true

  abbrev credit_in : Option FundingEvent → Option ℕ
  credit_in (some (participant_funded _ participant amount _ _)) =
      if same_hex participant signer then some amount else none
  credit_in _ = none

  abbrev credit_of : ObservedLog → Option ℕ
  credit_of log = credit_in (event_of decode pool log)

  credit_of_iff : (log : ObservedLog) (n : ℕ) → (credit_of log ≡ some n) ↔ Credits log n
  credit_of_iff log n = (sound, λ c. rw (c.from_pool, c.decoded, c.is_signer))
    where
      credited :
          (e : Option FundingEvent)
          → decode log ≡ e
          → credit_in e ≡ some n
          → same_hex log.address pool ≡ true
          → Credits log n
      credited none d h s = cc
      credited (some (eth_received_via_call _ _)) d h s = cc
      credited (some (participant_funded a p m t u)) d h s = elim (Bool-cases (same_hex p signer)) [
        | inl e ↦ record {
          attempt = a;
          participant = p;
          participant_total = t;
          attempt_total = u;
          from_pool = s;
          decoded = ground arith;
          is_signer = e;
        }
        | inr e ↦ cc (rw e at h)
      ]

      sound : credit_of log ≡ some n → Credits log n
      sound h = elim (Bool-cases (same_hex log.address pool)) [
        | inl e ↦ credited (decode log) refl (rw e at h) e
        | inr e ↦ cc (rw e at h)
      ]

  abbrev accept_in : Option FundingEvent → Option ℕ
  accept_in (some (eth_received_via_call sender amount)) =
      if same_hex sender signer then some amount else none
  accept_in _ = none

  abbrev accept_of : ObservedLog → Option ℕ
  accept_of log = accept_in (event_of decode pool log)

  note_funding-picks :
      (logs : List ObservedLog)
      → foldl (note_funding decode pool signer) ([], []) logs
        ≡ (picks credit_of logs, picks accept_of logs)
  unfolding note_funding
  note_funding-picks logs = λ i. (
    foldl-picks credit_of step (λ s. s.0) (λ s x. credit_skip s x) (λ s x y. credit_push s x y)
        ([], []) logs i,
    foldl-picks accept_of step (λ s. s.1) (λ s x. accept_skip s x) (λ s x y. accept_push s x y)
        ([], []) logs i,
  )
    where
      step : List ℕ × List ℕ → ObservedLog → List ℕ × List ℕ
      step = note_funding decode pool signer

      credit_skip :
          (s : List ℕ × List ℕ) (log : ObservedLog) → credit_of log ≡ none → (step s log).0 ≡ s.0
      credit_skip s log h = ground arith

      credit_push :
          (s : List ℕ × List ℕ) (log : ObservedLog) (n : ℕ)
          → credit_of log ≡ some n
          → (step s log).0 ≡ s.0 ++ (n ∷ [])
      credit_push s log n h = ground arith

      accept_skip :
          (s : List ℕ × List ℕ) (log : ObservedLog) → accept_of log ≡ none → (step s log).1 ≡ s.1
      accept_skip s log h = ground arith

      accept_push :
          (s : List ℕ × List ℕ) (log : ObservedLog) (n : ℕ)
          → accept_of log ≡ some n
          → (step s log).1 ≡ s.1 ++ (n ∷ [])
      accept_push s log n h = ground arith

  accept_of_iff : (log : ObservedLog) (n : ℕ) → (accept_of log ≡ some n) ↔ Accepts log n
  accept_of_iff log n = (sound, λ c. rw (c.from_pool, c.decoded, c.is_signer))
    where
      accepted :
          (e : Option FundingEvent)
          → decode log ≡ e
          → accept_in e ≡ some n
          → same_hex log.address pool ≡ true
          → Accepts log n
      accepted none d h s = cc
      accepted (some (participant_funded _ _ _ _ _)) d h s = cc
      accepted (some (eth_received_via_call p m)) d h s = elim (Bool-cases (same_hex p signer)) [
        | inl e ↦ record { sender = p; from_pool = s; decoded = ground arith; is_signer = e }
        | inr e ↦ cc (rw e at h)
      ]

      sound : accept_of log ≡ some n → Accepts log n
      sound h = elim (Bool-cases (same_hex log.address pool)) [
        | inl e ↦ accepted (decode log) refl (rw e at h) e
        | inr e ↦ cc (rw e at h)
      ]

  verdict_ok :
      (amount : ℕ) (credited accepted : List ℕ)
      → funding_verdict decode pool signer amount (credited, accepted) ≡ ok tt
      → credited ≡ amount ∷ []
  verdict_ok amount [] [] h = cc
  verdict_ok amount [] (_ ∷ _) h = cc
  verdict_ok amount (n ∷ []) accepted h = ground arith
  verdict_ok amount (_ ∷ _ ∷ _) [] h = cc
  verdict_ok amount (_ ∷ _ ∷ _) (_ ∷ _) h = cc

  -- The receipt is accepted exactly when one of its logs is the pool's credit of the amount to the
  -- signer and no other log is the pool's credit of anything to the signer.
  pub assert_funding_was_credited_iff :
      (logs : List ObservedLog) (amount : ℕ)
      → (assert_funding_was_credited decode pool signer logs amount ≡ ok tt)
        ↔ OnlyOne Credits logs amount
  unfolding assert_funding_was_credited
  assert_funding_was_credited_iff logs amount = (
    λ h. OnlyOne-sound Credits credit_of credit_of_iff logs amount (
        verdict_ok amount (picks credit_of logs) (picks accept_of logs)
          (rw (note_funding-picks logs) at h)),
    λ one.
        rw
          (
            note_funding-picks logs,
            OnlyOne-complete Credits credit_of credit_of_iff logs amount one,
          )
          (rw ((==_iff amount amount).1 refl)),
  )

  -- A transfer that the pool takes once as proceeds, and never credits, is reported as such.
  pub assert_funding_was_credited_proceeds :
      (logs : List ObservedLog) (amount taken : ℕ)
      → OnlyOne Accepts logs taken
      → All (λ log. (n : ℕ) → ¬ Credits log n) logs
      → assert_funding_was_credited decode pool signer logs amount ≡ err credited_as_proceeds
  unfolding assert_funding_was_credited
  assert_funding_was_credited_proceeds logs amount taken one never = rw (
    note_funding-picks logs,
    OnlyOne-complete Accepts accept_of accept_of_iff logs taken one,
    nothing_picked Credits credit_of credit_of_iff logs never,
  )
