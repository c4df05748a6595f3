-- ===== src/Env/Examples.antt =====
-- Numerals of the environment and of the deposit-data file.
use text.Mathlib.Text.{◌==◌ as str_eq}
use validator_funding_pool.Base.{◌≡◌, refl, none, some, if◌then◌else◌}
use validator_funding_pool.Decimal.{decimal, is_canonical_decimal, big_int}
use validator_funding_pool.Text.{codes}
use validator_funding_pool.Env.{Env, parse_unsigned_decimal}
use validator_funding_pool.Env.Laws.{parse_unsigned_decimal_iff}

parse_unsigned_decimal_iff_example : codes "120" ≡ decimal 120
unfolding parse_unsigned_decimal is_canonical_decimal big_int
parse_unsigned_decimal_iff_example = (parse_unsigned_decimal_iff (codes "120") 120).0 refl

abbrev declared : Env
declared name = if str_eq name "EXPECTED_FUNDING_ATTEMPT" then some (codes "3") else none
