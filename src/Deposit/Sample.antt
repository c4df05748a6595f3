-- ===== src/Deposit/Sample.antt =====
-- A deposit-data file of one validator (scripts/lib/common.ts): data of the tests.
use validator_funding_pool.Base.{some, none}
use validator_funding_pool.Decimal.{Text}
use validator_funding_pool.Text.{codes}
use validator_funding_pool.Value.{nat, str}
use validator_funding_pool.Deposit.{DepositData}

-- A file may leave the prefix out.
abbrev pub local : Text
local =
    codes
      "aaaaaaaaaaaaaaaaaaaaaaaaaaaaaaaaaaaaaaaaaaaaaaaaaaaaaaaaaaaaaaaaaaaaaaaaaaaaaaaaaaaaaaaaaaaaaaaB"

abbrev pub normalized : Text
normalized =
    codes
      "0xaaaaaaaaaaaaaaaaaaaaaaaaaaaaaaaaaaaaaaaaaaaaaaaaaaaaaaaaaaaaaaaaaaaaaaaaaaaaaaaaaaaaaaaaaaaaaaaB"

abbrev pub committed : Text
committed =
    codes
      "0xaaaaaaaaaaaaaaaaaaaaaaaaaaaaaaaaaaaaaaaaaaaaaaaaaaaaaaaaaaaaaaaaaaaaaaaaaaaaaaaaaaaaaaaaaaaaaaab"

abbrev pub credentials : Text
credentials = codes "0x0100000000000000000000000000000000000000000000000000000000000000"

abbrev pub root : Text
root = codes "0x0707070707070707070707070707070707070707070707070707070707070707"

abbrev pub signature : Text
signature =
    codes
      "0x0b0b0b0b0b0b0b0b0b0b0b0b0b0b0b0b0b0b0b0b0b0b0b0b0b0b0b0b0b0b0b0b0b0b0b0b0b0b0b0b0b0b0b0b0b0b0b0b0b0b0b0b0b0b0b0b0b0b0b0b0b0b0b0b0b0b0b0b0b0b0b0b0b0b0b0b0b0b0b0b0b0b0b0b0b0b0b0b0b0b0b0b0b0b0b0b"

abbrev pub predeposit : DepositData
predeposit = record {
  pubkey = local;
  withdrawal_credentials = credentials;
  amount = nat 1_000_000_000;
  signature = signature;
  deposit_data_root = root;
  fork_version = some (codes "0x00000000");
  network_name = none;
}

abbrev pub top_up : DepositData
top_up = record predeposit { amount = str (codes "31000000000") }
