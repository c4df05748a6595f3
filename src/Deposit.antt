-- ===== src/Deposit.antt =====
-- The deposit-data file against what was declared and committed (scripts/lib/common.ts, from
-- `readPredepositAndTopUpDepositData` to `parseExpectedPubkey`).
pub mod Laws
pub mod Validate
pub mod Sample
mod Examples
use validator_funding_pool.Base.{
  ℕ, ◌*◌, Bool, true, false, List, [], ◌∷◌, Option, none, some, ◌==◌, if◌then◌else◌,
}
use validator_funding_pool.Decimal.{Text, is_empty}
use validator_funding_pool.Text.{same_text, same_hex, to_lower_case, is_hex_of_length}
use validator_funding_pool.Value.{Value}
use validator_funding_pool.Env.{
  Env, env_text, as_hex, normalize_hex_length, parse_deposit_amount_gwei,
}
use validator_funding_pool.Failure.{
  Result, ok, err, ◌>>=◌, ◌>>◌, guard, deposit_entry_missing, predeposit_wei_differs,
  committed_pubkey_differs, expected_pubkey_malformed, expected_pubkey_differs,
}

-- `DepositData`
pub record DepositData : Type 0 where
  pub pubkey : Text
  pub withdrawal_credentials : Text
  pub amount : Value
  pub signature : Text
  pub deposit_data_root : Text
  pub fork_version : Option Text
  pub network_name : Option Text

-- `deposits.find(...)`, which parses the amounts up to the entry that it finds.
unfoldable pub find_amount : ℕ → List DepositData → Result (Option DepositData)
find_amount gwei [] = ok none
find_amount gwei (d ∷ ds) =
    let rest = find_amount gwei ds in
    parse_deposit_amount_gwei d.amount >>= λ n. if n == gwei then ok (some d) else rest

abbrev pub found_entries :
    Option DepositData → Option DepositData → Result (DepositData × DepositData)
found_entries (some predeposit) (some top_up) = ok (predeposit, top_up)
found_entries _ _ = err deposit_entry_missing

-- `readPredepositAndTopUpDepositData`, on the entries of the file.
unfoldable pub predeposit_and_top_up : List DepositData → Result (DepositData × DepositData)
predeposit_and_top_up deposits = do
  predeposit ← find_amount 1_000_000_000 deposits
  top_up ← find_amount 31_000_000_000 deposits
  found_entries predeposit top_up

unfoldable pub assert_contract_predeposit_wei : ℕ → Result (Unit {0})
assert_contract_predeposit_wei reported =
    guard (reported == 1_000_000_000 * 1_000_000_000) predeposit_wei_differs

-- `assertCommittedPubkeyMatchesLocal`
unfoldable pub assert_committed_pubkey : Text → DepositData → Result Text
assert_committed_pubkey committed predeposit = do
  local ← normalize_hex_length predeposit.pubkey 48
  guard (same_hex committed local) committed_pubkey_differs
  ok local

unfoldable pub parse_expected_pubkey : Text → Result Text
parse_expected_pubkey declared =
    guard (is_hex_of_length 96 (as_hex declared)) expected_pubkey_malformed
    >> ok (to_lower_case (as_hex declared))

abbrev pub compare_pubkey : Text → Text → Result Text
compare_pubkey pubkey expected =
    guard (same_text pubkey expected) expected_pubkey_differs >> ok pubkey

unfoldable pub assert_expected_pubkey : Env → Text → Result Text
assert_expected_pubkey env local = do
  pubkey ← normalize_hex_length local 48
  elim (is_empty (env_text env "EXPECTED_PUBKEY")) [
    | true ↦ ok (to_lower_case pubkey)
    | false ↦
        parse_expected_pubkey (env_text env "EXPECTED_PUBKEY")
        >>= compare_pubkey (to_lower_case pubkey)
  ]

-- `assertCommittedPubkeyMatchesLocalIfReadable`: a file that cannot be read, or has not the entries,
-- is warned of. `err` is a file that cannot be read.
unfoldable pub assert_committed_pubkey_if_readable : Result (List DepositData) → Text → Result Text
assert_committed_pubkey_if_readable file committed = elim (file >>= predeposit_and_top_up) [
  | err _ ↦ ok committed
  | ok (predeposit, top_up) ↦ assert_committed_pubkey committed predeposit
]
