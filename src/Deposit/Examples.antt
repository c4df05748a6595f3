-- ===== src/Deposit/Examples.antt =====
-- A deposit-data file whose top-up comes first, and a declared key.
use text.Mathlib.Text.{◌==◌ as str_eq}
use validator_funding_pool.Base.{◌≡◌, refl, ◌⊎◌, List, [], ◌∷◌, none, some, if◌then◌else◌}
use validator_funding_pool.Decimal.{Text}
use validator_funding_pool.Text.{to_lower_case, same_text, is_hex_of_length}
use validator_funding_pool.Env.{Env, env_text, as_hex, normalize_hex_length}
use validator_funding_pool.Failure.{ok}
use validator_funding_pool.Deposit.{DepositData, parse_expected_pubkey, assert_expected_pubkey}
use validator_funding_pool.Deposit.Sample.{local, committed, predeposit, top_up}
use validator_funding_pool.Deposit.Laws.{assert_expected_pubkey_sound}

abbrev deposits : List DepositData
deposits = top_up ∷ predeposit ∷ []

abbrev declared : Env
declared name = if str_eq name "EXPECTED_PUBKEY" then some local else none

assert_expected_pubkey_sound_example :
    ((t : Text) × (normalize_hex_length local 48 ≡ ok t) × (committed ≡ to_lower_case t))
    × ((env_text declared "EXPECTED_PUBKEY" ≡ [])
        ⊎ (to_lower_case (as_hex (env_text declared "EXPECTED_PUBKEY")) ≡ committed))
unfolding assert_expected_pubkey parse_expected_pubkey normalize_hex_length env_text as_hex
    to_lower_case same_text is_hex_of_length
assert_expected_pubkey_sound_example = assert_expected_pubkey_sound declared local committed refl
