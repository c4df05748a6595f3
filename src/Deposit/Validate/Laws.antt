-- ===== src/Deposit/Validate/Laws.antt =====
-- An entry of the deposit-data file that is accepted is a deposit for the pool, with a root and a
-- signature of its own data (scripts/lib/common.ts, `validateDepositData`).
use validator_funding_pool.Base.{ℕ, ◌≡◌, true, not, ◌&&◌, Option, none, some, ◌==◌, arith}
use validator_funding_pool.Decimal.{Text, is_empty}
use validator_funding_pool.Text.{same_hex}
use validator_funding_pool.Env.{Env, env_text, normalize_hex_length, parse_deposit_amount_gwei}
use validator_funding_pool.Failure.{
  ok, guard, refuse_if, deposit_amount_differs, deposit_credentials_differ, deposit_root_differs,
  deposit_fork_differs, deposit_signature_invalid, deposit_network_differs, Ensures, returned,
  bind-Ensures,
}
use validator_funding_pool.Deposit.{DepositData}
use validator_funding_pool.Deposit.Validate.{
  Consensus, ValidDeposit, or_empty, names, check_key, compute_deposit_data_root,
  verify_deposit_signature, validate_deposit_data,
}

-- The declared key is the entry's, where one is declared.
abbrev pub KeyExpected : Option Text → Text → Type 0
KeyExpected none pubkey = Unit {0}
KeyExpected (some expected) pubkey = same_hex pubkey expected ≡ true

-- A deposit of the amount to the credentials on the chain, whose root and signature are those of its
-- own data.
pub record IsDeposit (lib : Consensus) (deposit : DepositData) (credentials chain : Text)
    (key : Option Text) (gwei : ℕ) (d : ValidDeposit) : Type 0 where
  pub own_pubkey : normalize_hex_length deposit.pubkey 48 ≡ ok d.pubkey
  pub own_signature : normalize_hex_length deposit.signature 96 ≡ ok d.signature
  pub amount : d.amount_gwei ≡ gwei
  pub to_credentials : same_hex d.withdrawal_credentials credentials ≡ true
  pub expected_key : KeyExpected key d.pubkey
  pub on_chain : normalize_hex_length chain 4 ≡ ok d.fork_version
  pub root : Text
  pub root_of_data :
      compute_deposit_data_root lib d.pubkey d.withdrawal_credentials d.amount_gwei d.signature
      ≡ ok root
  pub own_root : same_hex root d.deposit_data_root ≡ true
  pub signed :
      verify_deposit_signature lib d.pubkey d.withdrawal_credentials d.amount_gwei d.signature
        d.fork_version
      ≡ ok true

check_key_sound :
    (expected : Option Text) (pubkey : Text) (a : Unit {0})
    → check_key expected pubkey ≡ ok a
    → KeyExpected expected pubkey
check_key_sound none pubkey a h = tt
check_key_sound (some key) pubkey a h = ground arith

-- An entry is accepted only as such a deposit.
pub validate_deposit_data-Ensures :
    (lib : Consensus) (env : Env) (deposit : DepositData) (credentials chain : Text)
    (key : Option Text) (gwei : ℕ)
    → Ensures
        (IsDeposit lib deposit credentials chain key gwei)
        (validate_deposit_data lib env deposit credentials chain key gwei)
unfolding validate_deposit_data
validate_deposit_data-Ensures lib env deposit credentials chain key gwei =
    bind-Ensures (normalize_hex_length deposit.pubkey 48) _ λ pubkey own_pubkey.
      bind-Ensures (normalize_hex_length deposit.withdrawal_credentials 32) _ λ creds _.
        bind-Ensures (normalize_hex_length deposit.signature 96) _ λ signature own_signature.
          bind-Ensures (normalize_hex_length deposit.deposit_data_root 32) _ λ file_root _.
            bind-Ensures (normalize_hex_length (or_empty deposit.fork_version) 4) _ λ fork _.
              bind-Ensures (normalize_hex_length chain 4) _ λ chain_version on_chain.
                bind-Ensures (parse_deposit_amount_gwei deposit.amount) _ λ amount _.
                  bind-Ensures (guard (amount == gwei) deposit_amount_differs) _ λ _ same_amount.
                    bind-Ensures (guard (same_hex creds credentials) deposit_credentials_differ) _
                      λ _ same_credentials. bind-Ensures (check_key key pubkey) _ λ a same_key.
                        bind-Ensures (compute_deposit_data_root lib pubkey creds amount signature) _
                          λ root of_data.
                            bind-Ensures (guard (same_hex root file_root) deposit_root_differs) _
                              λ _ same_root.
                                bind-Ensures
                                  (guard (same_hex fork chain_version) deposit_fork_differs) _
                                  λ _ _.
                                    bind-Ensures
                                      (verify_deposit_signature lib pubkey creds amount signature
                                        chain_version)
                                      _
                                      λ valid verified.
                                        bind-Ensures (guard valid deposit_signature_invalid) _
                                          λ _ is_valid.
                                            let network = env_text env "DEPOSIT_NETWORK_NAME" in
                                            bind-Ensures
                                              (refuse_if
                                                (not (is_empty network)
                                                  && not (names deposit.network_name network))
                                                deposit_network_differs)
                                              _
                                              λ _ _.
                                                let holds : valid ≡ true = ground arith in
                                                returned (record {
                                                  own_pubkey = own_pubkey;
                                                  own_signature = own_signature;
                                                  amount = ground arith;
                                                  to_credentials = ground arith;
                                                  expected_key =
                                                      check_key_sound key pubkey a same_key;
                                                  on_chain = on_chain;
                                                  root = root;
                                                  root_of_data = of_data;
                                                  own_root = ground arith;
                                                  signed = rw holds at verified;
                                                })
