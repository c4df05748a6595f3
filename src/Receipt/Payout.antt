-- ===== src/Receipt/Payout.antt =====
-- `assertPayoutReachedRecipient` accepts a receipt exactly when the pool paid the participant once,
-- to the intended recipient.
use validator_funding_pool.Base.{
  ℕ, ◌≡◌, refl, ◌↔◌, inl, inr, true, false, List, [], ◌∷◌, ◌++◌, Option, none, some, arith, ◌&&◌,
  foldl, Bool-cases, if◌then◌else◌,
}
use validator_funding_pool.Decimal.{Text}
use validator_funding_pool.Text.{same_hex}
use validator_funding_pool.Failure.{ok, err, payout_redirected}
use validator_funding_pool.Receipt.{
  ObservedLog, PayoutName, claimed, refunded, PayoutEvent, event_of, same_payout_name, note_payout,
  assert_payout_reached_recipient, payout_verdict,
}
use validator_funding_pool.Receipt.OnlyOne.{
  picks, foldl-picks, OnlyOne, OnlyOne-sound, OnlyOne-complete,
}

module _ (decode : ObservedLog → Option PayoutEvent) (pool : Text) (name : PayoutName)
    (participant : Text) where
  -- A log of the pool that says that it paid the participant: to whom, and how much.
  pub record Pays (log : ObservedLog) (paid : Text × ℕ) : Type 0 where
    pub payee : Text
    pub from_pool : same_hex log.address pool ≡ true
    pub decoded :
        decode log
        ≡ some (record { name = name; participant = payee; recipient = paid.0; amount = paid.1 })
    pub is_participant : same_hex payee participant ≡ true

  abbrev payout_in : Option PayoutEvent → Option (Text × ℕ)
  payout_in none = none
  payout_in (some e) =
      if same_payout_name e.name name && same_hex e.participant participant
      then some (e.recipient, e.amount)
      else none

  abbrev payout_of : ObservedLog → Option (Text × ℕ)
  payout_of log = payout_in (event_of decode pool log)

  same_payout_name_refl : (n : PayoutName) → same_payout_name n n ≡ true
  same_payout_name_refl claimed = refl
  same_payout_name_refl refunded = refl

  same_payout_name_sound : (m n : PayoutName) → same_payout_name m n ≡ true → m ≡ n
  same_payout_name_sound claimed claimed h = refl
  same_payout_name_sound refunded refunded h = refl
  same_payout_name_sound claimed refunded h = cc
  same_payout_name_sound refunded claimed h = cc

  payout_of_iff : (log : ObservedLog) (p : Text × ℕ) → (payout_of log ≡ some p) ↔ Pays log p
  payout_of_iff log p =
      (sound, λ c. rw (c.from_pool, c.decoded, same_payout_name_refl name, c.is_participant))
    where
      paid :
          (e : Option PayoutEvent)
          → decode log ≡ e
          → payout_in e ≡ some p
          → same_hex log.address pool ≡ true
          → Pays log p
      paid none d h s = cc
      paid (some e) d h s = elim (Bool-cases (same_payout_name e.name name)) [
        | inl n ↦ elim (Bool-cases (same_hex e.participant participant)) [
          | inl q ↦ record {
            payee = e.participant;
            from_pool = s;
            decoded = ground (arith, same_payout_name_sound e.name name n, d);
            is_participant = q;
          }
          | inr q ↦ cc (rw (n, q) at h)
        ]
        | inr n ↦ cc (rw n at h)
      ]

      sound : payout_of log ≡ some p → Pays log p
      sound h = elim (Bool-cases (same_hex log.address pool)) [
        | inl e ↦ paid (decode log) refl (rw e at h) e
        | inr e ↦ cc (rw e at h)
      ]

  note_payout-picks :
      (logs : List ObservedLog)
      → foldl (note_payout decode pool name participant) [] logs ≡ picks payout_of logs
  unfolding note_payout
  note_payout-picks logs = foldl-picks payout_of step (λ s. s) skip push [] logs
    where
      step : List (Text × ℕ) → ObservedLog → List (Text × ℕ)
      step = note_payout decode pool name participant

      skip : (s : List (Text × ℕ)) (log : ObservedLog) → payout_of log ≡ none → step s log ≡ s
      skip s log h = ground arith

      push :
          (s : List (Text × ℕ)) (log : ObservedLog) (p : Text × ℕ)
          → payout_of log ≡ some p
          → step s log ≡ s ++ (p ∷ [])
      push s log p h = ground arith

  verdict_ok :
      (intended : Text) (payouts : List (Text × ℕ))
      → payout_verdict decode pool intended payouts ≡ ok tt
      → (p : Text × ℕ) × (payouts ≡ p ∷ []) × (same_hex p.0 intended ≡ true)
  verdict_ok intended [] h = cc
  verdict_ok intended (p ∷ []) h = (p, refl, ground arith)
  verdict_ok intended (_ ∷ _ ∷ _) h = cc

  verdict_redirected :
      (intended : Text) (payouts : List (Text × ℕ))
      → payout_verdict decode pool intended payouts ≡ err payout_redirected
      → (p : Text × ℕ) × (payouts ≡ p ∷ []) × (same_hex p.0 intended ≡ false)
  verdict_redirected intended [] h = cc
  verdict_redirected intended (p ∷ []) h = (p, refl, ground arith)
  verdict_redirected intended (_ ∷ _ ∷ _) h = cc

  module _ (logs : List ObservedLog) (intended : Text) where
    only : (p : Text × ℕ) → picks payout_of logs ≡ p ∷ [] → OnlyOne Pays logs p
    only p = OnlyOne-sound Pays payout_of payout_of_iff logs p

    -- The receipt is accepted exactly when one of its logs is the pool's payout to the participant,
    -- no other log is, and the recipient that it names is the intended one.
    pub assert_payout_reached_recipient_iff :
        (assert_payout_reached_recipient decode pool logs name participant intended ≡ ok tt)
        ↔ ((p : Text × ℕ) × OnlyOne Pays logs p × (same_hex p.0 intended ≡ true))
    unfolding assert_payout_reached_recipient
    assert_payout_reached_recipient_iff = (
      λ h.
          let (p, one, reached) = verdict_ok intended _ (rw (note_payout-picks logs) at h) in
          (p, only p one, reached),
      λ (p, one, reached). rw (
        note_payout-picks logs,
        OnlyOne-complete Pays payout_of payout_of_iff logs p one,
        reached,
      ),
    )

    -- It is refused as redirected exactly when there is one such payout, to another recipient.
    pub assert_payout_reached_recipient_redirected :
        (assert_payout_reached_recipient decode pool logs name participant intended
          ≡ err payout_redirected)
        ↔ ((p : Text × ℕ) × OnlyOne Pays logs p × (same_hex p.0 intended ≡ false))
    unfolding assert_payout_reached_recipient
    assert_payout_reached_recipient_redirected = (
      λ h.
          let (p, one, other) = verdict_redirected intended _ (rw (note_payout-picks logs) at h) in
          (p, only p one, other),
      λ (p, one, other).
          rw (
            note_payout-picks logs,
            OnlyOne-complete Pays payout_of payout_of_iff logs p one,
            other,
          ),
    )
