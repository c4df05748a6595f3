-- ===== src/Allocation/Examples.antt =====
-- An allocation of two participants, and windows.
use text.Mathlib.Text.{◌==◌ as str_eq}
use validator_funding_pool.Base.{
  ◌≤◌, ◌≡◌, refl, true, [], ◌∷◌, none, some, if◌then◌else◌, length, All,
}
use validator_funding_pool.Decimal.{Text, decimal, is_canonical_decimal, big_int}
use validator_funding_pool.Text.{codes, is_hex_of_length, trim, split_comma}
use validator_funding_pool.Text.Split.{join_comma}
use validator_funding_pool.Env.{
  Env, AddressTest, env_text, parse_unsigned_decimal, parse_address_list, parse_big_int_list,
}
use validator_funding_pool.Failure.{ok}
use validator_funding_pool.Allocation.{
  Allocation, require_funding_window_seconds, require_funding_allocation,
  min_funding_window_seconds, max_funding_window_seconds,
}
use validator_funding_pool.Allocation.Laws.{
  AcceptsHexOnly, require_funding_window_seconds_iff, require_funding_allocation_roundtrip,
  require_funding_allocation_sound,
}

-- Forty hex digits after the prefix, whatever their case.
abbrev hex_address : AddressTest
hex_address strict t = is_hex_of_length 40 t

hex_address-AcceptsHexOnly : AcceptsHexOnly hex_address
hex_address-AcceptsHexOnly strict t h = h

abbrev alice : Text
alice = codes "0x00000000000000000000000000000000000000aa"

abbrev bob : Text
bob = codes "0x00000000000000000000000000000000000000Bb"

abbrev declared : Env
declared name =
    if str_eq name "PARTICIPANTS"
    then some (join_comma (alice ∷ bob ∷ []))
    else if str_eq name "FUNDING_TARGETS_GWEI"
    then some (codes "20,11")
    else if str_eq name "FUNDING_WINDOW_SECONDS"
    then some (codes "3600")
    else none

require_funding_window_seconds_iff_example :
    (env_text declared "FUNDING_WINDOW_SECONDS" ≡ decimal 3600)
    × (min_funding_window_seconds ≤ 3600)
    × (3600 ≤ max_funding_window_seconds)
unfolding require_funding_window_seconds parse_unsigned_decimal is_canonical_decimal big_int
require_funding_window_seconds_iff_example =
    (require_funding_window_seconds_iff declared 3600).0 refl

require_funding_allocation_roundtrip_example :
    require_funding_allocation declared hex_address
    ≡ ok (record { participants = alice ∷ bob ∷ []; funding_targets_gwei = 20 ∷ 11 ∷ [] })
unfolding env_text is_hex_of_length decimal join_comma
require_funding_allocation_roundtrip_example =
    require_funding_allocation_roundtrip hex_address hex_address-AcceptsHexOnly declared alice
      (bob ∷ []) 20 (11 ∷ []) (refl, (refl, tt)) refl refl refl

abbrev allocation : Allocation
allocation = record { participants = alice ∷ bob ∷ []; funding_targets_gwei = 20 ∷ 11 ∷ [] }

allocation_run : require_funding_allocation declared hex_address ≡ ok allocation
unfolding require_funding_allocation parse_address_list parse_big_int_list env_text is_hex_of_length
    join_comma split_comma trim is_canonical_decimal big_int
allocation_run = refl

require_funding_allocation_sound_example :
    (length allocation.participants ≡ length allocation.funding_targets_gwei)
    × All (λ p. is_hex_of_length 40 p ≡ true) allocation.participants
require_funding_allocation_sound_example =
    require_funding_allocation_sound declared hex_address allocation allocation_run
