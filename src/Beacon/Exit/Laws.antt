-- ===== src/Beacon/Exit/Laws.antt =====
-- What the preflight of `request-exit` establishes.
use validator_funding_pool.Base.{
  ℕ, ◌+◌, ◌*◌, ◌/◌, ◌≤◌, ◌<◌, ◌≡◌, ◌⊎◌, inl, inr, ◌↔◌, true, false, [], arith, ltb, ◌==◌,
  Bool-cases,
}
use native.Mathlib.Nat.{le-div_iff_mul-le}
use validator_funding_pool.Decimal.{Text, decimal, is_empty}
use validator_funding_pool.Text.{codes, same_hex, same_text}
use validator_funding_pool.Text.Laws.{same_text_iff}
use validator_funding_pool.Value.{Value, str}
use validator_funding_pool.Env.{Env, uint64_max, env_text}
use validator_funding_pool.Env.Laws.{is_empty_iff}
use validator_funding_pool.Beacon.Shape.{parse_beacon_uint64}
use validator_funding_pool.Beacon.Read.{
  Reply, PreflightReplies, Preflight, fetch_beacon_json, read_beacon_validator_preflight,
  assert_withdrawal_credentials, print_beacon_preflight,
}
use validator_funding_pool.Beacon.Fresh.{far_future_epoch}
use validator_funding_pool.Beacon.Fresh.Laws.{parse_text_iff}
use validator_funding_pool.Beacon.Exit.{
  beacon_spec_uint, assert_exit_eligible, assert_ready_for_exit_at_url, assert_ready_for_exit,
}
use validator_funding_pool.Failure.{
  ok, refuse_if, slots_per_epoch_zero, not_exit_eligible, Ensures, returned, thrown, bind-Ensures,
  Ensures-sound, >>=-eq-ok,
}

-- The head slot lies in an epoch at least the committee period after the validator's activation.
pub record IsEligible (p : Preflight) (spec : Value) : Type 0 where
  pub slots_per_epoch : ℕ
  pub shard_committee_period : ℕ
  pub head_slot : ℕ
  pub activation_epoch : ℕ
  pub slots_read : beacon_spec_uint spec "SLOTS_PER_EPOCH" ≡ ok slots_per_epoch
  pub period_read : beacon_spec_uint spec "SHARD_COMMITTEE_PERIOD" ≡ ok shard_committee_period
  pub head_text : p.syncing.head_slot ≡ decimal head_slot
  pub head_fits : head_slot ≤ uint64_max
  pub activation_text : p.validator.activation_epoch ≡ decimal activation_epoch
  pub activation_fits : activation_epoch ≤ uint64_max
  pub slots_pos : 0 < slots_per_epoch
  pub late_enough : (activation_epoch + shard_committee_period) * slots_per_epoch ≤ head_slot

IsEligible-Ensures :
    (p : Preflight) (spec : Value) → Ensures (λ _. IsEligible p spec) (assert_exit_eligible p spec)
unfolding assert_exit_eligible
IsEligible-Ensures p spec = bind-Ensures (beacon_spec_uint spec "SLOTS_PER_EPOCH") _ λ slots s.
    bind-Ensures (refuse_if (slots == 0) slots_per_epoch_zero) _ λ _ nonzero.
      bind-Ensures (beacon_spec_uint spec "SHARD_COMMITTEE_PERIOD") _ λ period c.
        bind-Ensures (parse_beacon_uint64 (str p.syncing.head_slot)) _ λ slot h.
          bind-Ensures (parse_beacon_uint64 (str p.validator.activation_epoch)) _
            λ epoch a. late p spec slots period slot epoch s c h a (ground arith)
  where
    late :
        (p : Preflight) (spec : Value) (slots period slot epoch : ℕ)
        → beacon_spec_uint spec "SLOTS_PER_EPOCH" ≡ ok slots
        → beacon_spec_uint spec "SHARD_COMMITTEE_PERIOD" ≡ ok period
        → parse_beacon_uint64 (str p.syncing.head_slot) ≡ ok slot
        → parse_beacon_uint64 (str p.validator.activation_epoch) ≡ ok epoch
        → 0 < slots
        → Ensures
            (λ _. IsEligible p spec)
            (refuse_if (ltb (slot / slots) (epoch + period)) not_exit_eligible)
    late p spec slots period slot epoch s c h a pos =
        elim (Bool-cases (ltb (slot / slots) (epoch + period))) [
          | inl early ↦ rw early thrown
          | inr passed ↦
              let (head, head_fits) = (parse_text_iff p.syncing.head_slot slot).0 h in
              let (activation, fits) = (parse_text_iff p.validator.activation_epoch epoch).0 a in
              rw passed (
                returned (record {
                  slots_per_epoch = slots;
                  shard_committee_period = period;
                  head_slot = slot;
                  activation_epoch = epoch;
                  slots_read = s;
                  period_read = c;
                  head_text = head;
                  head_fits = head_fits;
                  activation_text = activation;
                  activation_fits = fits;
                  slots_pos = pos;
                  late_enough = (le-div_iff_mul-le pos).0 (ground arith);
                }))
        ]

eligible_complete :
    (p : Preflight) (spec : Value) → IsEligible p spec → assert_exit_eligible p spec ≡ ok tt
unfolding assert_exit_eligible
eligible_complete p spec e =
    let epochs : e.activation_epoch + e.shard_committee_period ≤ e.head_slot / e.slots_per_epoch =
      (le-div_iff_mul-le e.slots_pos).1 e.late_enough in
    rw
      (
        e.slots_read,
        e.period_read,
        (parse_text_iff p.syncing.head_slot e.head_slot).1 (e.head_text, e.head_fits),
        (parse_text_iff p.validator.activation_epoch e.activation_epoch).1
            (e.activation_text, e.activation_fits),
      )
      (ground arith)

module _ (replies : PreflightReplies) (spec : Reply) (pubkey credentials : Text) where
  -- What is known of a validator whose exit is requested.
  pub record ReadyForExit : Type 0 where
    pub preflight : Preflight
    pub config : Value
    pub read : read_beacon_validator_preflight replies pubkey ≡ ok preflight
    pub config_read : fetch_beacon_json spec ≡ ok config
    pub owned : same_hex preflight.validator.withdrawal_credentials credentials ≡ true
    pub unslashed : preflight.validator.slashed ≡ false
    pub no_exit : preflight.validator.exit_epoch ≡ decimal uint64_max
    pub active : preflight.validator.status ≡ codes "active_ongoing"
    pub eligible : IsEligible preflight config
    pub printed : print_beacon_preflight preflight ≡ ok tt

  checks_split :
      (p : Preflight) (config : Value)
      → read_beacon_validator_preflight replies pubkey ≡ ok p
      → fetch_beacon_json spec ≡ ok config
      → (assert_ready_for_exit_at_url replies spec pubkey credentials ≡ ok tt) ↔ (
          (same_hex p.validator.withdrawal_credentials credentials ≡ true)
          × (p.validator.slashed ≡ false)
          × (same_text p.validator.exit_epoch far_future_epoch ≡ true)
          × (same_text p.validator.status (codes "active_ongoing") ≡ true)
          × (assert_exit_eligible p config ≡ ok tt)
          × (print_beacon_preflight p ≡ ok tt))
  unfolding assert_ready_for_exit_at_url assert_withdrawal_credentials
  checks_split p config r c = (λ h. ground arith, λ h. ground arith)

  url_sound :
      (p : Preflight) (config : Value)
      → read_beacon_validator_preflight replies pubkey ≡ ok p
      → fetch_beacon_json spec ≡ ok config
      → assert_ready_for_exit_at_url replies spec pubkey credentials ≡ ok tt
      → ReadyForExit
  url_sound p config r c h =
      let (owned, unslashed, exit, active, eligible, printed) = (checks_split p config r c).0 h in
      record {
        preflight = p;
        config = config;
        read = r;
        config_read = c;
        owned = owned;
        unslashed = unslashed;
        no_exit =
            unfold far_future_epoch in
            (same_text_iff p.validator.exit_epoch far_future_epoch).0 exit;
        active = (same_text_iff p.validator.status (codes "active_ongoing")).0 active;
        eligible = Ensures-sound (IsEligible-Ensures p config) tt eligible;
        printed = printed;
      }

  reads :
      assert_ready_for_exit_at_url replies spec pubkey credentials ≡ ok tt
      → (p : Preflight) × (config : Value) × (read_beacon_validator_preflight replies pubkey ≡ ok p)
        × (fetch_beacon_json spec ≡ ok config)
  unfolding assert_ready_for_exit_at_url
  reads h =
      let (p, r, h') = >>=-eq-ok (read_beacon_validator_preflight replies pubkey) _ h in
      let (config, c, _) = >>=-eq-ok (fetch_beacon_json spec) _ h' in (p, config, r, c)

  url_complete : ReadyForExit → assert_ready_for_exit_at_url replies spec pubkey credentials ≡ ok tt
  url_complete e = (checks_split e.preflight e.config e.read e.config_read).1 (
    e.owned,
    e.unslashed,
    unfold far_future_epoch in
        (same_text_iff e.preflight.validator.exit_epoch far_future_epoch).1 e.no_exit,
    (same_text_iff e.preflight.validator.status (codes "active_ongoing")).1 e.active,
    eligible_complete e.preflight e.config e.eligible,
    e.printed,
  )

  -- The preflight passes exactly when no beacon node is named, or when its replies can be read and
  -- the validator has the pool's credentials, is active, unslashed and not exiting, and has been
  -- active for the committee period at the head slot.
  pub assert_ready_for_exit_iff :
      (env : Env)
      → (assert_ready_for_exit env replies spec pubkey credentials ≡ ok tt)
        ↔ ((env_text env "BEACON_NODE_URL" ≡ []) ⊎ ReadyForExit)
  unfolding assert_ready_for_exit
  assert_ready_for_exit_iff env = (sound, complete)
    where
      unnamed :
          (is_empty (env_text env "BEACON_NODE_URL") ≡ true) ↔ (env_text env "BEACON_NODE_URL" ≡ [])
      unnamed = is_empty_iff (env_text env "BEACON_NODE_URL")

      sound :
          assert_ready_for_exit env replies spec pubkey credentials ≡ ok tt
          → (env_text env "BEACON_NODE_URL" ≡ []) ⊎ ReadyForExit
      sound h = elim (Bool-cases (is_empty (env_text env "BEACON_NODE_URL"))) [
        | inl e ↦ inl (unnamed.0 e)
        | inr e ↦
            let h' : assert_ready_for_exit_at_url replies spec pubkey credentials ≡ ok tt =
              rw (e, assert_ready_for_exit) at h in
            let (p, config, r, c) = reads h' in inr (url_sound p config r c h')
      ]

      complete :
          (env_text env "BEACON_NODE_URL" ≡ []) ⊎ ReadyForExit
          → assert_ready_for_exit env replies spec pubkey credentials ≡ ok tt
      complete (inl e) = rw (e, assert_ready_for_exit)
      complete (inr r) = elim (Bool-cases (is_empty (env_text env "BEACON_NODE_URL"))) [
        | inl e ↦ rw (e, assert_ready_for_exit)
        | inr e ↦ rw (e, assert_ready_for_exit) (url_complete r)
      ]
