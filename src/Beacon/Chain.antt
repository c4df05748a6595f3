-- ===== src/Beacon/Chain.antt =====
-- Which chain the beacon node is on, and that a validator is not there yet (scripts/lib/common.ts,
-- `assertBeaconMatchesExecutionChain`, `assertBeaconValidatorAbsent`,
-- `readBeaconGenesisForkVersion`).
pub mod Laws
mod Examples
use validator_funding_pool.Base.{ℕ, Bool, true, false, Option, none, some, ◌==◌, if◌then◌else◌}
use validator_funding_pool.Decimal.{Text, is_empty}
use validator_funding_pool.Text.{codes, same_text, same_hex, to_lower_case}
use validator_funding_pool.Value.{
  Value, Values, Fields, nil, cons, str, arr, field_of, property, as_beacon_object,
}
use validator_funding_pool.Value.Print.{hex_argument}
use validator_funding_pool.Env.{Env, AddressTest, env_text, normalize_hex_length}
use validator_funding_pool.Beacon.Shape.{parse_beacon_uint64, require_beacon_data_envelope}
use validator_funding_pool.Beacon.Read.{
  Reply, unfinished, refused, unparsed, json, fetch_beacon_json, require_beacon_node_url,
  assert_beacon_node_healthy,
}
use validator_funding_pool.Failure.{
  Result, ok, err, ◌>>=◌, ◌>>◌, guard, or_fail, beacon_url_missing, request_unfinished,
  reply_unparsed, list_unread, list_malformed, validator_exists, beacon_chain_differs,
  beacon_contract_invalid, beacon_contract_differs, fork_version_malformed, fork_version_overruled,
  fork_version_differs,
}

-- `isAddress(value)`. What is no text is not an address.
abbrev pub address_text : AddressTest → Value → Result Text
address_text is_address (str t) = if is_address true t then ok t else err beacon_contract_invalid
address_text is_address _ = err beacon_contract_invalid

-- With the address of a beacon node set.
unfoldable pub assert_beacon_matches_chain_at_url :
    AddressTest → (config : Reply) (chain_id : ℕ) (deposit_contract : Text) → Result Bool
assert_beacon_matches_chain_at_url is_address config chain_id deposit_contract = do
  response ← fetch_beacon_json config
  given ← require_beacon_data_envelope response
  beacon_chain_id ← parse_beacon_uint64 (field_of "chain_id" given)
  guard (beacon_chain_id == chain_id) beacon_chain_differs
  address ← address_text is_address (field_of "address" given)
  guard (same_hex address deposit_contract) beacon_contract_differs
  ok true

-- `false` is an optional check that is not made, for want of an address.
unfoldable pub assert_beacon_matches_execution_chain :
    AddressTest
    → Env
    → (config : Reply) (chain_id : ℕ) (deposit_contract : Text) (optional : Bool) → Result Bool
unfolding env_text
assert_beacon_matches_execution_chain is_address env config chain_id deposit_contract optional =
    elim (is_empty (env_text env "BEACON_NODE_URL")) [
      | true ↦ if optional then ok false else err beacon_url_missing
      | false ↦ assert_beacon_matches_chain_at_url is_address config chain_id deposit_contract
    ]

-- The list that answers the request for the head state's validators.
unfoldable pub fetch_validator_list : Reply → Result Values
fetch_validator_list unfinished = err request_unfinished
fetch_validator_list refused = err list_unread
fetch_validator_list unparsed = err reply_unparsed
fetch_validator_list (json body) =
    property "data" body >>= λ given. elim given [ arr vs ↦ ok vs | _ ↦ err list_malformed ]

-- An entry is a validator that exists already, and is described in the error.
unfoldable pub assert_no_entry : Values → Result (Unit {0})
assert_no_entry nil = ok tt
assert_no_entry (cons v vs) = do
  first ← as_beacon_object v
  as_beacon_object (field_of "validator" first)
  err validator_exists

unfoldable pub assert_beacon_validator_absent :
    Env → (syncing validators : Reply) → Result (Unit {0})
assert_beacon_validator_absent env syncing validators = do
  require_beacon_node_url env
  assert_beacon_node_healthy syncing
  entries ← fetch_validator_list validators
  assert_no_entry entries

-- `CANONICAL_GENESIS_FORK_VERSION`
abbrev pub canonical_genesis_fork_version : ℕ → Option Text
canonical_genesis_fork_version chain_id = if chain_id == 1 then some (codes "0x00000000") else none

-- A declared version is normalised, and cannot overrule the pinned one.
abbrev pub settle_fork_version : Option Text → Text → Result (Option Text)
settle_fork_version none declared = ok (some declared)
settle_fork_version (some canonical) declared =
    guard (same_text declared canonical) fork_version_overruled >> ok (some declared)

unfoldable pub required_genesis_fork_version : Env → ℕ → Result (Option Text)
unfolding env_text
required_genesis_fork_version env chain_id = elim (is_empty (env_text env "GENESIS_FORK_VERSION")) [
  | true ↦ ok (canonical_genesis_fork_version chain_id)
  | false ↦ do
    declared ←
        or_fail (normalize_hex_length (env_text env "GENESIS_FORK_VERSION") 4)
          fork_version_malformed
    settle_fork_version (canonical_genesis_fork_version chain_id) (to_lower_case declared)
]

-- `normalizeHexLength` of a value of the reply, whose type is not checked: what is no text is written
-- as one.
abbrev pub reported_version : Value → Result Text
reported_version v = hex_argument v >>= λ t. normalize_hex_length t 4

abbrev pub check_fork_version : Text → Option Text → Result Text
check_fork_version reported none = ok reported
check_fork_version reported (some required) =
    guard (same_text reported required) fork_version_differs >> ok reported

unfoldable pub read_beacon_genesis_fork_version : Env → ℕ → (syncing genesis : Reply) → Result Text
read_beacon_genesis_fork_version env chain_id syncing genesis = do
  require_beacon_node_url env
  assert_beacon_node_healthy syncing
  response ← fetch_beacon_json genesis
  given ← require_beacon_data_envelope response
  reported ← reported_version (field_of "genesis_fork_version" given)
  required ← required_genesis_fork_version env chain_id
  check_fork_version (to_lower_case reported) required
