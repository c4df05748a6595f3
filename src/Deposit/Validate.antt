-- ===== src/Deposit/Validate.antt =====
-- The validation of an entry of the deposit-data file (scripts/lib/common.ts, `validateDepositData`
-- and the roots it computes). The hash tree roots of ssz, its hex conversions and the BLS
-- verification are parameters; `verify` is false also where a key or a signature cannot be read.
pub mod Laws
use validator_funding_pool.Base.{
  ℕ, ◌*◌, Bool, true, false, not, ◌&&◌, List, [], ◌∷◌, ◌++◌, Option, none, some, ltb, ◌==◌,
  if◌then◌else◌, take,
}
use validator_funding_pool.Decimal.{Text, is_empty}
use validator_funding_pool.Text.{codes, same_text, same_hex}
use validator_funding_pool.Env.{
  Env, env_text, max_safe_integer, normalize_hex_length, parse_deposit_amount_gwei,
}
use validator_funding_pool.Failure.{
  Result, ok, err, ◌>>=◌, ◌>>◌, guard, refuse_if, deposit_amount_differs,
  deposit_credentials_differ, deposit_pubkey_differs, deposit_root_differs, deposit_fork_differs,
  deposit_signature_invalid, deposit_network_differs, amount_too_large_for_ssz,
}
use validator_funding_pool.Deposit.{DepositData}

-- What the source uses of @lodestar/types, @lodestar/params and @chainsafe/blst.
pub record Consensus : Type 0 where
  pub from_hex : Text → List ℕ
  pub to_hex : List ℕ → Text
  pub domain_deposit : List ℕ
  pub deposit_data_root : (pubkey credentials : List ℕ) (amount : ℕ) (signature : List ℕ) → List ℕ
  pub deposit_message_root : (pubkey credentials : List ℕ) (amount : ℕ) → List ℕ
  pub signing_data_root : (object_root domain : List ℕ) → List ℕ
  pub fork_data_root : (current_version genesis_validators_root : List ℕ) → List ℕ
  pub verify : (message pubkey signature : List ℕ) → Bool

-- `ZERO_ROOT`
abbrev pub zero_root : Text
zero_root = codes "0x0000000000000000000000000000000000000000000000000000000000000000"

unfoldable pub gwei_to_number : ℕ → Result ℕ
gwei_to_number value = refuse_if (ltb max_safe_integer value) amount_too_large_for_ssz >> ok value

-- A field of the result.
pub record ValidDeposit : Type 0 where
  pub pubkey : Text
  pub withdrawal_credentials : Text
  pub signature : Text
  pub deposit_data_root : Text
  pub amount_gwei : ℕ
  pub fork_version : Text

abbrev pub or_empty : Option Text → Text
or_empty none = []
or_empty (some t) = t

abbrev pub names : Option Text → Text → Bool
names none expected = false
names (some t) expected = same_text t expected

-- The check against `expectedPubkey`, where it is given.
abbrev pub check_key : Option Text → Text → Result (Unit {0})
check_key none pubkey = ok tt
check_key (some expected) pubkey = guard (same_hex pubkey expected) deposit_pubkey_differs

module _ (lib : Consensus) where
  unfoldable pub compute_deposit_data_root :
      (pubkey credentials : Text) (amount_gwei : ℕ) (signature : Text) → Result Text
  compute_deposit_data_root pubkey credentials amount_gwei signature = do
    amount ← gwei_to_number amount_gwei
    ok (
        lib.to_hex (
          lib.deposit_data_root (lib.from_hex pubkey) (lib.from_hex credentials) amount
            (lib.from_hex signature)))

  -- The 4 bytes of the domain's type and the first 28 of the fork's root.
  unfoldable pub compute_deposit_domain : (fork_version : Text) → List ℕ
  compute_deposit_domain fork_version =
      lib.domain_deposit
      ++ take 28 (lib.fork_data_root (lib.from_hex fork_version) (lib.from_hex zero_root))

  unfoldable pub compute_deposit_signing_root :
      (pubkey credentials : Text) (amount_gwei : ℕ) (fork_version : Text) → Result Text
  compute_deposit_signing_root pubkey credentials amount_gwei fork_version = do
    amount ← gwei_to_number amount_gwei
    ok (
        lib.to_hex (
          lib.signing_data_root
            (lib.deposit_message_root (lib.from_hex pubkey) (lib.from_hex credentials) amount)
            (compute_deposit_domain fork_version)))

  unfoldable pub verify_deposit_signature :
      (pubkey credentials : Text) (amount_gwei : ℕ) (signature fork_version : Text) → Result Bool
  verify_deposit_signature pubkey credentials amount_gwei signature fork_version = do
    root ← compute_deposit_signing_root pubkey credentials amount_gwei fork_version
    ok (lib.verify (lib.from_hex root) (lib.from_hex pubkey) (lib.from_hex signature))

  unfoldable pub validate_deposit_data :
      Env
      → DepositData
      → (expected_credentials chain_fork_version : Text)
      → (expected_pubkey : Option Text) (expected_amount_gwei : ℕ) → Result ValidDeposit
  validate_deposit_data env deposit expected_credentials chain_fork_version expected_pubkey
        expected_amount_gwei =
      do
        pubkey ← normalize_hex_length deposit.pubkey 48
        credentials ← normalize_hex_length deposit.withdrawal_credentials 32
        signature ← normalize_hex_length deposit.signature 96
        root ← normalize_hex_length deposit.deposit_data_root 32
        fork_version ← normalize_hex_length (or_empty deposit.fork_version) 4
        chain_version ← normalize_hex_length chain_fork_version 4
        amount_gwei ← parse_deposit_amount_gwei deposit.amount
        guard (amount_gwei == expected_amount_gwei) deposit_amount_differs
        guard (same_hex credentials expected_credentials) deposit_credentials_differ
        check_key expected_pubkey pubkey
        recomputed ← compute_deposit_data_root pubkey credentials amount_gwei signature
        guard (same_hex recomputed root) deposit_root_differs
        guard (same_hex fork_version chain_version) deposit_fork_differs
        valid ← verify_deposit_signature pubkey credentials amount_gwei signature chain_version
        guard valid deposit_signature_invalid
        let network = env_text env "DEPOSIT_NETWORK_NAME"
        refuse_if (not (is_empty network) && not (names deposit.network_name network))
            deposit_network_differs
        ok (record {
          pubkey = pubkey;
          withdrawal_credentials = credentials;
          signature = signature;
          deposit_data_root = root;
          amount_gwei = amount_gwei;
          fork_version = chain_version;
        })
