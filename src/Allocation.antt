-- ===== src/Allocation.antt =====
-- What an operator declares of a funding attempt (scripts/lib/common.ts): the window, read once at
-- deployment, and the participants with their targets, read when an attempt is opened.
pub mod Laws
mod Examples
use validator_funding_pool.Base.{
  ℕ, Bool, ◌||◌, List, Option, none, length, ltb, ◌==◌, if◌then◌else◌,
}
use validator_funding_pool.Decimal.{Text, is_empty}
use validator_funding_pool.Env.{
  Env, AddressTest, env_text, env_big_int, parse_address_list, parse_big_int_list,
}
use validator_funding_pool.Failure.{
  Result, ok, ◌>>=◌, ◌>>◌, guard, refuse_if, funding_window_declared, funding_window_unset,
  funding_window_out_of_range, participants_unset, targets_unset, allocation_lengths_differ,
}

abbrev pub min_funding_window_seconds : ℕ
min_funding_window_seconds = 3_600

abbrev pub max_funding_window_seconds : ℕ
max_funding_window_seconds = 31_536_000

-- The participants and their targets, in the same order.
pub record Allocation : Type 0 where
  pub participants : List Text
  pub funding_targets_gwei : List ℕ

module _ (env : Env) where
  unfoldable pub assert_funding_window_not_declared : Result (Unit {0})
  unfolding env_text
  assert_funding_window_not_declared =
      guard (is_empty (env_text env "FUNDING_WINDOW_SECONDS")) funding_window_declared

  unfoldable pub require_funding_window_seconds : Result ℕ
  unfolding env_text env_big_int
  require_funding_window_seconds = do
    refuse_if (is_empty (env_text env "FUNDING_WINDOW_SECONDS")) funding_window_unset
    seconds ← env_big_int env "FUNDING_WINDOW_SECONDS" none
    refuse_if (ltb seconds min_funding_window_seconds || ltb max_funding_window_seconds seconds)
        funding_window_out_of_range
    ok seconds

  unfoldable pub require_funding_allocation : AddressTest → Result Allocation
  require_funding_allocation is_address = do
    refuse_if (is_empty (env_text env "PARTICIPANTS")) participants_unset
    refuse_if (is_empty (env_text env "FUNDING_TARGETS_GWEI")) targets_unset
    participants ← parse_address_list is_address (env_text env "PARTICIPANTS")
    targets ← parse_big_int_list (env_text env "FUNDING_TARGETS_GWEI")
    guard (length participants == length targets) allocation_lengths_differ
    ok (record { participants = participants; funding_targets_gwei = targets })
