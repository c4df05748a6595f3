-- ===== src/Runtime.antt =====
-- The deployed code against the local build (scripts/lib/common.ts, `maskImmutableRanges` and
-- `assertRuntimeCodeMatchesLocalBuild`). A byte is two hex digits, so a range of bytes is a range of
-- twice as many digits of the code's text.
pub mod Mask
pub mod Laws
mod Examples
use validator_funding_pool.Base.{
  ℕ, zero, suc, ◌+◌, ◌*◌, ◌/◌, ◌%◌, Bool, true, false, ◌&&◌, ◌||◌, not, List, [], ◌∷◌, ◌++◌, map,
  Option, none, some, ltb, leb, ◌==◌, if◌then◌else◌, length, all, foldl,
}
use validator_funding_pool.Decimal.{Text}
use validator_funding_pool.Text.{codes, same_hex, to_lower_case, is_hex_digit}
use validator_funding_pool.Value.{Value, nat, str}
use validator_funding_pool.Failure.{
  Result, ok, err, ◌>>=◌, ◌>>◌, guard, refuse_if, map_ok, not_whole_bytes, range_outside,
  ranges_overlap, mask_above_ceiling, artifact_missing, artifact_unusable, code_not_ours,
}
use validator_funding_pool.Deployment.Live.{assert_has_code}
use validator_funding_pool.Runtime.Mask.{fill, fill_all}

-- `ImmutableRange`, as the artifact's JSON has it.
pub record ImmutableRange : Type 0 where
  pub start : Value
  pub length : Value

-- `BuildArtifact`; the ranges are those of all immutables, in the order of the artifact.
pub record BuildArtifact : Type 0 where
  pub deployed_bytecode : Value
  pub immutable_ranges : List ImmutableRange

abbrev pub max_masked_immutable_bytes : ℕ
max_masked_immutable_bytes = 2048

-- The code without its prefix `0x`.
abbrev pub code_body : Text → Text
code_body (a ∷ b ∷ t) = if a == b'0' && b == b'x' then t else a ∷ b ∷ t
code_body t = t

-- A range of whole numbers within the code.
unfoldable pub range_of : ℕ → (start length : Value) → Result (ℕ × ℕ)
range_of bytes (nat s) (nat n) = guard (leb (s + n) bytes) range_outside >> ok (s, n)
range_of bytes _ _ = err range_outside

abbrev pub read_range : ℕ → ImmutableRange → Result (ℕ × ℕ)
read_range bytes r = range_of bytes r.start r.length

-- `sort((left, right) => left.start - right.start)`
abbrev pub insert_range : ℕ × ℕ → List (ℕ × ℕ) → List (ℕ × ℕ)
insert_range r [] = r ∷ []
insert_range r (q ∷ qs) = if ltb q.0 r.0 then q ∷ insert_range r qs else r ∷ q ∷ qs

abbrev pub sort_ranges : List (ℕ × ℕ) → List (ℕ × ℕ)
sort_ranges [] = []
sort_ranges (r ∷ rs) = insert_range r (sort_ranges rs)

abbrev pub are_disjoint : List (ℕ × ℕ) → Bool
are_disjoint [] = true
are_disjoint (r ∷ []) = true
are_disjoint ((s, n) ∷ (t, m) ∷ rs) = leb (s + n) t && are_disjoint ((t, m) ∷ rs)

abbrev pub total_length : List (ℕ × ℕ) → ℕ
total_length [] = 0
total_length ((s, n) ∷ rs) = n + total_length rs

-- The masked code's digits.
unfoldable pub mask_immutable_ranges : Text → List ImmutableRange → Result Text
mask_immutable_ranges code references = do
  guard (all is_hex_digit (code_body code) && length (code_body code) % 2 == 0) not_whole_bytes
  declared ← map_ok (read_range (length (code_body code) / 2)) references
  guard (are_disjoint (sort_ranges declared)) ranges_overlap
  refuse_if (ltb max_masked_immutable_bytes (total_length declared)) mask_above_ceiling
  ok (fill_all declared (to_lower_case (code_body code)))

-- `/^0x[0-9a-fA-F]*$/`
abbrev pub is_hex : Text → Bool
is_hex (a ∷ b ∷ t) = a == b'0' && b == b'x' && all is_hex_digit t
is_hex _ = false

abbrev pub artifact_code : BuildArtifact → Result Text
artifact_code a = elim a.deployed_bytecode [
  | str t ↦ guard (is_hex t) artifact_unusable >> ok t
  | _ ↦ err artifact_unusable
]

-- The comparison, once it is known whether the two codes have the same length.
unfoldable pub compare_masked : Text → BuildArtifact → Text → Bool → Result Bool
compare_masked chain a code false = ok false
compare_masked chain a code true = do
  artifact ← mask_immutable_ranges code a.immutable_ranges
  masked ← mask_immutable_ranges chain a.immutable_ranges
  ok (same_hex artifact masked)

-- Whether a candidate's code is the chain's.
unfoldable pub is_candidate : Text → BuildArtifact → Result Bool
is_candidate chain a =
    artifact_code a >>= λ code. compare_masked chain a code (length code == length chain)

-- The first candidate whose code is the chain's.
unfoldable pub first_candidate : Text → List BuildArtifact → Result BuildArtifact
first_candidate chain [] = err code_not_ours
first_candidate chain (a ∷ candidates) =
    let rest = first_candidate chain candidates in
    is_candidate chain a >>= λ same. if same then ok a else rest

-- `assertRuntimeCodeMatchesLocalBuild`, on the code at the address.
unfoldable pub assert_runtime_code_matches_local_build :
    Option Text → List BuildArtifact → Result BuildArtifact
assert_runtime_code_matches_local_build code [] = err artifact_missing
assert_runtime_code_matches_local_build code (a ∷ candidates) =
    assert_has_code code >>= λ chain. first_candidate chain (a ∷ candidates)
