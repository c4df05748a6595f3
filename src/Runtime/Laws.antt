-- ===== src/Runtime/Laws.antt =====
-- Code that is accepted is the local build's at every place that is not declared immutable.
use validator_funding_pool.Base.{
  ℕ, zero, suc, ◌/◌, ◌%◌, ◌≤◌, ◌≡◌, refl, sym, ◌∙◌, Bool, true, false, ◌&&◌, List, [], ◌∷◌, map,
  some, arith, All, length, all, ◌==◌, ==_iff, ltb, if◌then◌else◌,
}
use mathlib.Core.Path.{subst}
use validator_funding_pool.Decimal.{Text}
use validator_funding_pool.Text.{same_hex, to_lower_case, is_hex_digit}
use validator_funding_pool.Text.Laws.{same_hex_iff, to_lower_case_idem}
use validator_funding_pool.Value.{Value, nat, str}
use validator_funding_pool.Failure.{
  ok, guard, refuse_if, map_ok, >>=-eq-ok, not_whole_bytes, ranges_overlap, mask_above_ceiling,
}
use validator_funding_pool.Deployment.Live.{assert_has_code}
use validator_funding_pool.Runtime.Mask.{fill_all, digit_at, IsOutside, fill_all-digit_at}
use validator_funding_pool.Runtime.{
  ImmutableRange, BuildArtifact, code_body, range_of, read_range, sort_ranges, are_disjoint,
  total_length, max_masked_immutable_bytes, mask_immutable_ranges, artifact_code, compare_masked,
  is_candidate, first_candidate, assert_runtime_code_matches_local_build,
}

-- A range as the artifact writes it.
abbrev pub written : ℕ × ℕ → ImmutableRange
written (s, n) = record { start = nat s; length = nat n }

-- The artifact's code has the length of the chain's, and the same digits, their case aside, outside
-- of the ranges that the artifact declares.
pub record IsBuild (chain : Text) (a : BuildArtifact) : Type 0 where
  pub code : Text
  pub ranges : List (ℕ × ℕ)
  pub bytecode : a.deployed_bytecode ≡ str code
  pub declared : a.immutable_ranges ≡ map written ranges
  pub same_length : length code ≡ length chain
  pub few : total_length ranges ≤ max_masked_immutable_bytes
  pub same_digits :
      (i : ℕ)
      → All (IsOutside i) ranges
      → digit_at (to_lower_case (code_body code)) i ≡ digit_at (to_lower_case (code_body chain)) i

range_of_sound :
    (bytes : ℕ) (v w : Value) (p : ℕ × ℕ)
    → range_of bytes v w ≡ ok p
    → (v ≡ nat p.0) × (w ≡ nat p.1)
unfolding range_of
range_of_sound bytes (nat s) (nat n) p h = ground arith
range_of_sound bytes _ _ p h = cc

read_range_sound :
    (bytes : ℕ) (r : ImmutableRange) (p : ℕ × ℕ) → read_range bytes r ≡ ok p → r ≡ written p
read_range_sound bytes r p h =
    let (start, count) = range_of_sound bytes r.start r.length p h in
    λ i. record { start = start i; length = count i }

ranges_sound :
    (bytes : ℕ) (refs : List ImmutableRange) (rs : List (ℕ × ℕ))
    → map_ok (read_range bytes) refs ≡ ok rs
    → refs ≡ map written rs
ranges_sound bytes [] [] h = refl
ranges_sound bytes [] (r ∷ rs) h = cc
ranges_sound bytes (x ∷ refs) rs h =
    let (p, first, h') = >>=-eq-ok (read_range bytes x) _ h in
    let (ps, rest, h'') = >>=-eq-ok (map_ok (read_range bytes) refs) _ h' in
    let e : p ∷ ps ≡ rs = cc in
    subst (λ qs. x ∷ refs ≡ map written qs) e
      (cc (read_range_sound bytes x p first, ranges_sound bytes refs ps rest))

written_injective : (rs qs : List (ℕ × ℕ)) → map written rs ≡ map written qs → rs ≡ qs
written_injective [] [] h = refl
written_injective [] (q ∷ qs) h = cc
written_injective (r ∷ rs) [] h = cc
written_injective ((s, n) ∷ rs) ((t, m) ∷ qs) h = cc (written_injective rs qs (cc))

lower-digit_at :
    (s t : Text) (i : ℕ)
    → digit_at s i ≡ digit_at t i
    → digit_at (to_lower_case s) i ≡ digit_at (to_lower_case t) i
unfolding to_lower_case
lower-digit_at [] [] i h = refl
lower-digit_at [] (d ∷ t) zero h = cc
lower-digit_at [] (d ∷ t) (suc i) h = lower-digit_at [] t i h
lower-digit_at (c ∷ s) [] zero h = cc
lower-digit_at (c ∷ s) [] (suc i) h = lower-digit_at s [] i h
lower-digit_at (c ∷ s) (d ∷ t) zero h = cc
lower-digit_at (c ∷ s) (d ∷ t) (suc i) h = lower-digit_at s t i h

mask_sound :
    (code masked : Text) (refs : List ImmutableRange)
    → mask_immutable_ranges code refs ≡ ok masked
    → (rs : List (ℕ × ℕ)) × (refs ≡ map written rs)
      × (total_length rs ≤ max_masked_immutable_bytes)
      × (masked ≡ fill_all rs (to_lower_case (code_body code)))
unfolding mask_immutable_ranges
mask_sound code masked refs h =
    let (_, _, h1) =
      >>=-eq-ok
        (guard (all is_hex_digit (code_body code) && length (code_body code) % 2 == 0)
          not_whole_bytes)
        _ h in
    let (rs, read, h2) = >>=-eq-ok (map_ok (read_range (length (code_body code) / 2)) refs) _ h1 in
    let (_, _, h3) = >>=-eq-ok (guard (are_disjoint (sort_ranges rs)) ranges_overlap) _ h2 in
    let (_, few, h4) =
      >>=-eq-ok (refuse_if (ltb max_masked_immutable_bytes (total_length rs)) mask_above_ceiling) _
        h3 in
    (rs, ranges_sound _ refs rs read, ground arith, cc)

same_outside :
    (rs : List (ℕ × ℕ)) (s t : Text)
    → same_hex (fill_all rs (to_lower_case s)) (fill_all rs (to_lower_case t)) ≡ true
    → (i : ℕ) → All (IsOutside i) rs
    → digit_at (to_lower_case s) i ≡ digit_at (to_lower_case t) i
same_outside rs s t h i out =
    let equal =
      (same_hex_iff (fill_all rs (to_lower_case s)) (fill_all rs (to_lower_case t))).0 h in
    let left = lower-digit_at _ _ i (fill_all-digit_at rs (to_lower_case s) i out) in
    let right = lower-digit_at _ _ i (fill_all-digit_at rs (to_lower_case t) i out) in
    cc (equal, left, right, to_lower_case_idem s, to_lower_case_idem t)

artifact_code_sound :
    (a : BuildArtifact) (code : Text) → artifact_code a ≡ ok code → a.deployed_bytecode ≡ str code
artifact_code_sound a code h = ground arith

compare_masked_sound :
    (chain : Text) (a : BuildArtifact) (code : Text) (long : Bool)
    → a.deployed_bytecode ≡ str code
    → (length code == length chain) ≡ long
    → compare_masked chain a code long ≡ ok true
    → IsBuild chain a
unfolding compare_masked
compare_masked_sound chain a code false bytecode long h = cc
compare_masked_sound chain a code true bytecode long h =
    let (artifact, first, h1) = >>=-eq-ok (mask_immutable_ranges code a.immutable_ranges) _ h in
    let (masked, second, h2) = >>=-eq-ok (mask_immutable_ranges chain a.immutable_ranges) _ h1 in
    let (rs, declared, few, filled) = mask_sound code artifact a.immutable_ranges first in
    let (qs, declared', _, filled') = mask_sound chain masked a.immutable_ranges second in
    let equal : rs ≡ qs = written_injective rs qs (sym declared ∙ declared') in
    let both : same_hex artifact masked ≡ true = cc in
    let agree : same_hex (fill_all rs (to_lower_case (code_body code)))
          (fill_all rs (to_lower_case (code_body chain)))
        ≡ true =
      cc in
    record {
      code = code;
      ranges = rs;
      bytecode = bytecode;
      declared = declared;
      same_length = (==_iff (length code) (length chain)).0 long;
      few = few;
      same_digits = same_outside rs (code_body code) (code_body chain) agree;
    }

is_candidate_sound :
    (chain : Text) (a : BuildArtifact) → is_candidate chain a ≡ ok true → IsBuild chain a
unfolding is_candidate
is_candidate_sound chain a h =
    let (code, read, h1) = >>=-eq-ok (artifact_code a) _ h in
    compare_masked_sound chain a code _ (artifact_code_sound a code read) refl h1

first_candidate_sound :
    (chain : Text) (candidates : List BuildArtifact) (a : BuildArtifact)
    → first_candidate chain candidates ≡ ok a
    → IsBuild chain a
unfolding first_candidate
first_candidate_sound chain [] a h = cc
first_candidate_sound chain (x ∷ candidates) a h =
    let (same, matched, h') = >>=-eq-ok (is_candidate chain x) _ h in
    chosen same (first_candidate_sound chain candidates a) matched h'
  where
    chosen :
        (same : Bool)
        → (first_candidate chain candidates ≡ ok a → IsBuild chain a)
        → is_candidate chain x ≡ ok same
        → (if same then ok x else first_candidate chain candidates) ≡ ok a
        → IsBuild chain a
    chosen true later matched h =
        let here : x ≡ a = ground arith in
        subst (IsBuild chain) here (is_candidate_sound chain x matched)
    chosen false later matched h = later h

-- The artifact that is returned has the chain's code at every place that it does not declare
-- immutable, and declares no more than the ceiling.
pub assert_runtime_code_matches_local_build_sound :
    (chain : Text) (candidates : List BuildArtifact) (a : BuildArtifact)
    → assert_runtime_code_matches_local_build (some chain) candidates ≡ ok a
    → IsBuild chain a
unfolding assert_runtime_code_matches_local_build assert_has_code
assert_runtime_code_matches_local_build_sound chain [] a h = cc
assert_runtime_code_matches_local_build_sound chain (x ∷ candidates) a h =
    let (code, present, h') = >>=-eq-ok (assert_has_code (some chain)) _ h in
    let same : chain ≡ code = ground arith in first_candidate_sound chain (x ∷ candidates) a (cc)
