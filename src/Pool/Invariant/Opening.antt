-- ===== src/Pool/Invariant/Opening.antt =====
-- Opening an attempt establishes what an open attempt needs (contracts/ValidatorFundingPool.sol,
-- `openFundingAttempt`).
use validator_funding_pool.Base.{
  ℕ, ◌+◌, ◌≤◌, ◌≡◌, refl, sym, ◌∙◌, true, false, not, ◌||◌, ◌&&◌, List, [], ◌∷◌, ◌++◌, arith, ltb,
  ◌==◌, ==_iff, Bool-cases, inl, inr, length,
}
use mathlib.Core.Path.{subst}
use validator_funding_pool.Failure.{
  guard, refuse_if, not_operator, invalid_state, invalid_participant, duplicate_participant,
  invalid_funding_target, operator_target_too_small, empty_participant_set, too_many_participants,
  funding_targets_do_not_match_validator, Ensures, returned, bind-Ensures, Ensures-sound,
}
use validator_funding_pool.Pool.Map.{
  get, set, mem, IsDistinct, sum, get-set_self, get-set_other, sum-set_absent, mem-append,
  IsDistinct-append, sum-append, sum-zero,
}
use validator_funding_pool.Pool.{
  predeposit_wei, validator_deposit_wei, max_participants, predeposited, funding, PoolConfig, Pool,
  checked, is_stage,
}
use validator_funding_pool.Pool.Lifecycle.{
  Roster, add_participant, add_participants, roster_of, set_funding_attempt, open_with,
  open_funding_attempt,
}
use validator_funding_pool.Pool.Invariant.{
  reserve, IsIdle, Valid, ValidOutcome, with_snapshot-Valid, is_stage_iff, at_stage, from_stage,
}
use validator_funding_pool.Pool.Invariant.Attempt.{checked_sound}

-- What holds between two rounds of the loop.
record IsRoster (c : PoolConfig) (r : Roster) : Type 0 where
  distinct : IsDistinct r.participants
  listed : (a : ℕ) → not (get r.index a == 0) ≡ mem a r.participants
  targeted : sum (get r.targets) r.participants ≡ r.target_total
  reserved : (a : ℕ) → mem a r.participants ≡ true → reserve c a ≤ get r.targets a
  seen : r.operator_seen ≡ mem c.operator r.participants
  untargeted : (a : ℕ) → mem a r.participants ≡ false → get r.targets a ≡ 0

module _ (c : PoolConfig) (i : ℕ) (r : Roster) (participant target : ℕ) where
  added : Roster
  added = record {
    participants = r.participants ++ (participant ∷ []);
    index = set r.index participant (i + 1);
    targets = set r.targets participant target;
    target_total = r.target_total + target;
    operator_seen = r.operator_seen || participant == c.operator;
  }

  added-IsRoster :
      IsRoster c r
      → mem participant r.participants ≡ false
      → reserve c participant ≤ target
      → IsRoster c added
  unfolding added
  added-IsRoster v absent enough = record {
    distinct = IsDistinct-append participant r.participants v.distinct absent;
    listed = listed;
    targeted = omega (
      arith,
      sum-append (get (set r.targets participant target)) r.participants participant,
      sum-set_absent r.targets participant target r.participants absent,
      get-set_self r.targets participant target,
      v.targeted,
    );
    reserved = reserved;
    untargeted = untargeted;
    seen = rw (mem-append c.operator participant r.participants) (ground (arith, v.seen));
  }
    where
      untargeted :
          (a : ℕ)
          → mem a (r.participants ++ (participant ∷ [])) ≡ false
          → get (set r.targets participant target) a ≡ 0
      untargeted a m = elim (Bool-cases (participant == a)) [
        | inl e ↦
            ground (arith, mem-append a participant r.participants, (==_iff participant a).0 e)
        | inr e ↦
            get-set_other r.targets participant target a e
            ∙ v.untargeted a (ground (arith, mem-append a participant r.participants))
      ]

      listed :
          (a : ℕ)
          → not (get (set r.index participant (i + 1)) a == 0)
            ≡ mem a (r.participants ++ (participant ∷ []))
      listed a = elim (Bool-cases (participant == a)) [
        | inl e ↦ ground (
          arith,
          mem-append a participant r.participants,
          (==_iff participant a).0 e,
          get-set_self r.index participant (i + 1),
        )
        | inr e ↦ ground (
          arith,
          mem-append a participant r.participants,
          v.listed a,
          get-set_other r.index participant (i + 1) a e,
        )
      ]

      reserved :
          (a : ℕ)
          → mem a (r.participants ++ (participant ∷ [])) ≡ true
          → reserve c a ≤ get (set r.targets participant target) a
      reserved a m = elim (Bool-cases (participant == a)) [
        | inl e ↦
            let same : participant ≡ a = (==_iff participant a).0 e in
            subst (λ x. reserve c x ≤ get (set r.targets participant target) x) same
              (rw (get-set_self r.targets participant target) enough)
        | inr e ↦
            rw (get-set_other r.targets participant target a e)
              (v.reserved a (ground (arith, mem-append a participant r.participants)))
      ]

add_participant-IsRoster :
    (c : PoolConfig) (i : ℕ) (r : Roster) (participant target : ℕ)
    → IsRoster c r
    → Ensures (IsRoster c) (add_participant c i r participant target)
unfolding add_participant added set
add_participant-IsRoster c i r participant target v =
    bind-Ensures (refuse_if (participant == 0) invalid_participant) _ λ _ _.
      bind-Ensures (guard (get r.index participant == 0) duplicate_participant) _ λ _ new.
        bind-Ensures (refuse_if (target == 0) invalid_funding_target) _ λ _ _.
          bind-Ensures
            (refuse_if (participant == c.operator && ltb target predeposit_wei)
              operator_target_too_small)
            _
            λ _ enough. bind-Ensures (checked (r.target_total + target)) _ λ n all.
              let sum_is = checked_sound _ n all in
              let absent : mem participant r.participants ≡ false =
                sym (v.listed participant) ∙ (ground arith) in
              let next = added-IsRoster c i r participant target v absent (ground arith) in
              returned (
                subst
                  (λ t. IsRoster c (record (added c i r participant target) { target_total = t }))
                  sum_is (unfold added in next))

add_participants-IsRoster :
    (c : PoolConfig) (i : ℕ) (r : Roster) (participants targets : List ℕ)
    → IsRoster c r
    → Ensures (IsRoster c) (add_participants c i r participants targets)
unfolding add_participants
add_participants-IsRoster c i r (a ∷ others) (t ∷ ts) v =
    bind-Ensures (add_participant c i r a t) _ λ next added.
      add_participants-IsRoster c (i + 1) next others ts
        (Ensures-sound (add_participant-IsRoster c i r a t v) next added)
add_participants-IsRoster c i r [] ts v = returned v
add_participants-IsRoster c i r (a ∷ others) [] v = returned v

roster_of-IsRoster :
    (c : PoolConfig) (p : Pool)
    → IsIdle p.participants p.participant_index_plus_one p.funding_target_wei_of
        p.active_funded_wei_of p.total_active_funded_wei
    → IsRoster c (roster_of p)
roster_of-IsRoster c p idle = record {
  distinct = rw idle.nobody tt;
  listed = λ a. rw (idle.no_index a, idle.nobody);
  targeted = rw idle.nobody;
  reserved = λ a m. let none_listed : mem a p.participants ≡ false = rw idle.nobody in cc;
  seen = rw idle.nobody;
  untargeted = λ a m. idle.no_target a;
}

-- What is written once the loop is done and its checks have passed.
record IsComplete (c : PoolConfig) (r : Roster) : Type 0 where
  roster : IsRoster c r
  operator_listed : mem c.operator r.participants ≡ true
  whole : r.target_total ≡ validator_deposit_wei

set_funding_attempt-Ensures :
    (c : PoolConfig) (p : Pool) (participants targets : List ℕ)
    → IsRoster c (roster_of p)
    → Ensures (IsComplete c) (set_funding_attempt c p participants targets)
unfolding set_funding_attempt
set_funding_attempt-Ensures c p participants targets v =
    bind-Ensures (refuse_if (length participants == 0) empty_participant_set) _ λ _ _.
      bind-Ensures (refuse_if (ltb max_participants (length participants)) too_many_participants) _
        λ _ _.
          bind-Ensures (guard (length participants == length targets) invalid_funding_target) _
            λ _ _.
              bind-Ensures (add_participants c 0 (roster_of p) participants targets) _ λ r looped.
                bind-Ensures (guard r.operator_seen operator_target_too_small) _ λ _ seen.
                  bind-Ensures
                    (guard (r.target_total == validator_deposit_wei)
                      funding_targets_do_not_match_validator)
                    _
                    λ _ whole.
                      let roster =
                        Ensures-sound
                          (add_participants-IsRoster c 0 (roster_of p) participants targets v) r
                          looped in
                      returned (record {
                        roster = roster;
                        operator_listed = sym roster.seen ∙ (ground arith);
                        whole = ground arith;
                      })

-- Opening an attempt keeps the invariant.
pub open_funding_attempt-Valid :
    (c : PoolConfig) (p : Pool) (sender now : ℕ) (participants targets : List ℕ)
    → Valid c p
    → Ensures (ValidOutcome c) (open_funding_attempt c p sender now participants targets)
unfolding open_funding_attempt
open_funding_attempt-Valid c p sender now participants targets v =
    bind-Ensures (guard (sender == c.operator) not_operator) _ λ _ _.
      bind-Ensures (guard (is_stage p.state predeposited) invalid_state) _ λ _ stage.
        let e : p.state ≡ predeposited = is_stage_iff p.state predeposited (ground arith) in
        let w = at_stage c p predeposited e v in
        let idle = w.in_stage.0 in
        bind-Ensures (set_funding_attempt c p participants targets) _ λ r set_up.
          bind-Ensures (checked (now + c.funding_window_duration)) _ λ deadline _.
            bind-Ensures (checked (p.funding_attempt + 1)) _ λ attempt _.
              let complete =
                Ensures-sound
                  (set_funding_attempt-Ensures c p participants targets
                    (roster_of-IsRoster c p idle))
                  r set_up in
              with_snapshot-Valid c (open_with p r attempt deadline) _ (
                from_stage c (open_with p r attempt deadline) funding refl (record {
                  refundable = w.refundable;
                  covered = omega (arith, w.covered, idle.no_total);
                  submitted = w.submitted;
                  in_stage = (
                    record {
                      distinct = complete.roster.distinct;
                      listed = complete.roster.listed;
                      targeted = complete.roster.targeted ∙ complete.whole;
                      operator_listed = complete.operator_listed;
                      capped = λ a m. omega (arith, idle.no_active a, complete.roster.reserved a m);
                      funded =
                          sum-zero (get p.active_funded_wei_of) r.participants
                            (λ a m. idle.no_active a)
                          ∙ sym idle.no_total;
                      unlisted = λ a m. idle.no_active a;
                      untargeted = complete.roster.untargeted;
                    },
                    w.in_stage.1,
                  );
                }))
