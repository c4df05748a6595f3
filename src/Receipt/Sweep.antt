-- ===== src/Receipt/Sweep.antt =====
-- `assertSweepWasCredited` accepts a receipt exactly when the forwarder forwarded what it held and
-- the pool is richer by as much across the block.
use validator_funding_pool.Base.{
  ℕ, ◌+◌, ◌≤◌, ◌≡◌, refl, ◌↔◌, inl, inr, true, List, [], ◌∷◌, ◌++◌, Option, none, some, arith,
  Bool-cases, if◌then◌else◌,
}
use validator_funding_pool.Base.Int.{◌+ℤ◌, ◌-ℤ◌}
use validator_funding_pool.Decimal.{Text}
use validator_funding_pool.Text.{same_hex}
use validator_funding_pool.Failure.{ok}
use validator_funding_pool.Receipt.{
  ObservedLog, SweptEvent, SweepBalances, event_of, note_swept, swept_amounts, total_outflow,
  assert_sweep_was_credited,
}
use validator_funding_pool.Receipt.OnlyOne.{
  picks, foldl-picks, OnlyOne, OnlyOne-sound, OnlyOne-complete,
}

module _ (decode : ObservedLog → Option SweptEvent) (forwarder signer : Text) where
  -- A log of the forwarder that says that the signer swept an amount.
  pub record Sweeps (log : ObservedLog) (amount : ℕ) : Type 0 where
    pub caller : Text
    pub from_forwarder : same_hex log.address forwarder ≡ true
    pub decoded : decode log ≡ some (record { caller = caller; amount = amount })
    pub is_signer : same_hex caller signer ≡ true

  abbrev swept_in : Option SweptEvent → Option ℕ
  swept_in none = none
  swept_in (some e) = if same_hex e.caller signer then some e.amount else none

  abbrev swept_of : ObservedLog → Option ℕ
  swept_of log = swept_in (event_of decode forwarder log)

  swept_of_iff : (log : ObservedLog) (n : ℕ) → (swept_of log ≡ some n) ↔ Sweeps log n
  swept_of_iff log n = (sound, λ c. rw (c.from_forwarder, c.decoded, c.is_signer))
    where
      swept :
          (e : Option SweptEvent)
          → decode log ≡ e
          → swept_in e ≡ some n
          → same_hex log.address forwarder ≡ true
          → Sweeps log n
      swept none d h s = cc
      swept (some e) d h s = elim (Bool-cases (same_hex e.caller signer)) [
        | inl q ↦ record {
          caller = e.caller;
          from_forwarder = s;
          decoded = ground arith;
          is_signer = q;
        }
        | inr q ↦ cc (rw q at h)
      ]

      sound : swept_of log ≡ some n → Sweeps log n
      sound h = elim (Bool-cases (same_hex log.address forwarder)) [
        | inl e ↦ swept (decode log) refl (rw e at h) e
        | inr e ↦ cc (rw e at h)
      ]

  swept_amounts-picks :
      (logs : List ObservedLog) → swept_amounts decode forwarder signer logs ≡ picks swept_of logs
  unfolding swept_amounts
  swept_amounts-picks logs = foldl-picks swept_of step (λ s. s) skip push [] logs
    where
      step : List ℕ → ObservedLog → List ℕ
      step = note_swept decode forwarder signer

      skip : (s : List ℕ) (log : ObservedLog) → swept_of log ≡ none → step s log ≡ s
      skip s log h = ground arith

      push :
          (s : List ℕ) (log : ObservedLog) (n : ℕ)
          → swept_of log ≡ some n
          → step s log ≡ s ++ (n ∷ [])
      push s log n h = ground arith

  verdict_iff :
      (logs : List ObservedLog) (b : SweepBalances) (swept : List ℕ)
      → swept_amounts decode forwarder signer logs ≡ swept
      → (assert_sweep_was_credited decode forwarder signer logs b ≡ ok tt) ↔ (
          (n : ℕ) × (swept ≡ n ∷ [])
          × (b.forwarder_before ≤ n)
          × (b.pool_before + b.forwarder_before
              ≤ b.pool_after + total_outflow b.same_block_outflows))
  unfolding assert_sweep_was_credited ◌+ℤ◌ ◌-ℤ◌
  verdict_iff logs b [] e = (λ h. ground arith, λ h. cc)
  verdict_iff logs b (n ∷ []) e =
      (λ h. (n, refl, ground arith, ground arith), λ (m, same, full, landed). ground arith)
  verdict_iff logs b (_ ∷ _ ∷ _) e = (λ h. ground arith, λ h. cc)

  -- The receipt is accepted exactly when one of its logs is the forwarder's sweep by the signer, no
  -- other log is, the amount is at least what the forwarder held, and the pool's balance after the
  -- block, with what its logs say left it, covers its balance before and what the forwarder held.
  pub assert_sweep_was_credited_iff :
      (logs : List ObservedLog) (b : SweepBalances)
      → (assert_sweep_was_credited decode forwarder signer logs b ≡ ok tt) ↔ (
          (n : ℕ) × OnlyOne Sweeps logs n
          × (b.forwarder_before ≤ n)
          × (b.pool_before + b.forwarder_before
              ≤ b.pool_after + total_outflow b.same_block_outflows))
  assert_sweep_was_credited_iff logs b =
      let (sound, complete) = verdict_iff logs b _ (swept_amounts-picks logs) in
      (
        λ h.
            let (n, one, full, landed) = sound h in
            (n, OnlyOne-sound Sweeps swept_of swept_of_iff logs n one, full, landed),
        λ (n, one, full, landed).
            complete (n, OnlyOne-complete Sweeps swept_of swept_of_iff logs n one, full, landed),
      )
