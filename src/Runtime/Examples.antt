-- ===== src/Runtime/Examples.antt =====
-- A build of three bytes whose second one is immutable.
use validator_funding_pool.Base.{refl, List, [], ◌∷◌}
use validator_funding_pool.Decimal.{Text}
use validator_funding_pool.Text.{codes, same_text, same_hex, to_lower_case}
use validator_funding_pool.Value.{str}
use validator_funding_pool.Deployment.Live.{assert_has_code}
use validator_funding_pool.Runtime.Mask.{fill_all}
use validator_funding_pool.Runtime.{
  BuildArtifact, range_of, mask_immutable_ranges, compare_masked, is_candidate, first_candidate,
  assert_runtime_code_matches_local_build,
}
use validator_funding_pool.Runtime.Laws.{
  written, IsBuild, assert_runtime_code_matches_local_build_sound,
}

abbrev chain : Text
chain = codes "0x60AA61"

abbrev build_of : Text → BuildArtifact
build_of code = record { deployed_bytecode = str code; immutable_ranges = written (1, 1) ∷ [] }

-- The first build has another first byte.
abbrev builds : List BuildArtifact
builds = build_of (codes "0x610061") ∷ build_of (codes "0x600061") ∷ []

assert_runtime_code_matches_local_build_sound_example : IsBuild chain (build_of (codes "0x600061"))
unfolding assert_runtime_code_matches_local_build assert_has_code first_candidate is_candidate
    compare_masked mask_immutable_ranges range_of fill_all to_lower_case same_hex same_text
assert_runtime_code_matches_local_build_sound_example =
    assert_runtime_code_matches_local_build_sound chain builds (build_of (codes "0x600061")) refl
