-- ===== src/Beacon/Chain/Laws.antt =====
-- What is known of the beacon node's chain, and of a validator that is not there yet.
use validator_funding_pool.Base.{
  ℕ, ◌≡◌, refl, ◌↔◌, ◌⊎◌, inl, inr, Bool, true, false, [], Option, none, some, arith, ◌==◌,
  Bool-cases, if◌then◌else◌,
}
use mathlib.Core.Path.{subst}
use validator_funding_pool.Decimal.{Text, decimal, is_empty}
use validator_funding_pool.Text.{same_text, same_hex, to_lower_case}
use validator_funding_pool.Text.Laws.{same_text_iff}
use validator_funding_pool.Value.{
  Value, Values, Fields, nil, cons, arr, str, field_of, property, as_beacon_object,
}
use validator_funding_pool.Env.{Env, AddressTest, env_text, normalize_hex_length}
use validator_funding_pool.Env.Laws.{is_empty_iff}
use validator_funding_pool.Beacon.Shape.{
  parse_beacon_uint64, require_beacon_data_envelope, BeaconSyncing,
}
use validator_funding_pool.Beacon.Shape.Laws.{parse_beacon_uint64_iff}
use validator_funding_pool.Beacon.Read.{
  Reply, json, unfinished, refused, unparsed, fetch_beacon_json, require_beacon_node_url,
  assert_beacon_node_healthy,
}
use validator_funding_pool.Beacon.Chain.{
  address_text, assert_beacon_matches_chain_at_url, assert_beacon_matches_execution_chain,
  fetch_validator_list, assert_no_entry, assert_beacon_validator_absent,
  canonical_genesis_fork_version, settle_fork_version, required_genesis_fork_version,
  reported_version, check_fork_version, read_beacon_genesis_fork_version,
}
use validator_funding_pool.Failure.{
  ok, err, ◌>>=◌, guard, or_fail, fork_version_malformed, fork_version_overruled,
  fork_version_differs, beacon_chain_differs, beacon_contract_differs, beacon_url_missing,
  list_malformed, Ensures, returned, bind-Ensures, Ensures-sound, >>=-eq-ok,
}

-- The deposit contract that the node's configuration names is on the execution chain and is the one
-- expected.
pub record MatchesChain (is_address : AddressTest) (config : Reply) (chain_id : ℕ)
    (deposit_contract : Text) : Type 0 where
  pub response : Value
  pub given : Fields
  pub address : Text
  pub answered : fetch_beacon_json config ≡ ok response
  pub enveloped : require_beacon_data_envelope response ≡ ok given
  pub chain : field_of "chain_id" given ≡ str (decimal chain_id)
  pub contract : field_of "address" given ≡ str address
  pub checked : is_address true address ≡ true
  pub same : same_hex address deposit_contract ≡ true

address_text_sound :
    (is_address : AddressTest) (v : Value) (t : Text)
    → address_text is_address v ≡ ok t
    → (v ≡ str t) × (is_address true t ≡ true)
address_text_sound is_address (str s) t h = elim (Bool-cases (is_address true s)) [
  | inl e ↦
      let same : s ≡ t = ground arith in (ap_str same, subst (λ u. is_address true u ≡ true) same e)
  | inr e ↦ cc (rw e at h)
]
  where
    ap_str : {s t : Text} → s ≡ t → str s ≡ str t
    ap_str e = cc
address_text_sound is_address _ t h = cc

module _ (is_address : AddressTest) (config : Reply) (chain_id : ℕ) (deposit_contract : Text) where
  matches-Ensures :
      Ensures
        (λ made. (made ≡ true) × MatchesChain is_address config chain_id deposit_contract)
        (assert_beacon_matches_chain_at_url is_address config chain_id deposit_contract)
  unfolding assert_beacon_matches_chain_at_url
  matches-Ensures = bind-Ensures (fetch_beacon_json config) _ λ response answered.
      bind-Ensures (require_beacon_data_envelope response) _ λ given enveloped.
        bind-Ensures (parse_beacon_uint64 (field_of "chain_id" given)) _ λ n read.
          bind-Ensures (guard (n == chain_id) beacon_chain_differs) _ λ _ chain.
            bind-Ensures (address_text is_address (field_of "address" given)) _
              λ address given_address.
                bind-Ensures (guard (same_hex address deposit_contract) beacon_contract_differs) _
                  λ _ same.
                    let (contract, checked) =
                      address_text_sound is_address _ address given_address in
                    let same_id : n ≡ chain_id = ground arith in
                    returned (
                      refl,
                      record {
                        response = response;
                        given = given;
                        address = address;
                        answered = answered;
                        enveloped = enveloped;
                        chain =
                            subst (λ m. field_of "chain_id" given ≡ str (decimal m)) same_id
                              ((parse_beacon_uint64_iff _ n).0 read).0;
                        contract = contract;
                        checked = checked;
                        same = ground arith;
                      },
                    )

  -- A check that passes has found the node on the execution chain with the expected deposit
  -- contract; a check that is skipped is optional and names no node.
  pub assert_beacon_matches_execution_chain_sound :
      (env : Env) (optional made : Bool)
      → assert_beacon_matches_execution_chain is_address env config chain_id deposit_contract
          optional
        ≡ ok made
      → ((made ≡ true) × MatchesChain is_address config chain_id deposit_contract)
        ⊎ ((made ≡ false) × (optional ≡ true) × (env_text env "BEACON_NODE_URL" ≡ []))
  unfolding assert_beacon_matches_execution_chain
  assert_beacon_matches_execution_chain_sound env optional made h =
      elim (Bool-cases (is_empty (env_text env "BEACON_NODE_URL"))) [
        | inl e ↦
            let skipped : (made ≡ false) × (optional ≡ true) =
              skip optional (rw (e, assert_beacon_matches_execution_chain) at h) in
            inr (skipped.0, skipped.1, (is_empty_iff (env_text env "BEACON_NODE_URL")).0 e)
        | inr e ↦ inl (
            Ensures-sound matches-Ensures made (rw (e, assert_beacon_matches_execution_chain) at h))
      ]
    where
      skip :
          (optional : Bool)
          → (if optional then ok false else err beacon_url_missing) ≡ ok made
          → (made ≡ false) × (optional ≡ true)
      skip true h = (cc, refl)
      skip false h = cc

no_entry : (vs : Values) → assert_no_entry vs ≡ ok tt → vs ≡ nil
unfolding assert_no_entry
no_entry nil h = refl
no_entry (cons v vs) h =
    let (_, _, h') = >>=-eq-ok (as_beacon_object v) _ h in
    let (_, _, h'') = >>=-eq-ok (as_beacon_object _) _ h' in cc

-- A reply with a list under `data`.
list_sound :
    (reply : Reply) (vs : Values)
    → fetch_validator_list reply ≡ ok vs
    → (body : Value) × (reply ≡ json body) × (property "data" body ≡ ok (arr vs))
unfolding fetch_validator_list
list_sound unfinished vs h = cc
list_sound refused vs h = cc
list_sound unparsed vs h = cc
list_sound (json body) vs h =
    let (given, read, h') = >>=-eq-ok (property "data" body) _ h in
    (body, refl, listed given read h')
  where
    listed :
        (given : Value)
        → property "data" body ≡ ok given
        → (elim given [ arr us ↦ ok us | _ ↦ err list_malformed ]) ≡ ok vs
        → property "data" body ≡ ok (arr vs)
    listed (arr us) read h = cc
    listed _ read h = cc

list_complete :
    (body : Value) (vs : Values)
    → property "data" body ≡ ok (arr vs)
    → fetch_validator_list (json body) ≡ ok vs
unfolding fetch_validator_list
list_complete body vs read = rw read

-- The check before the predeposit passes exactly when a beacon node is named, it is healthy, and
-- its list of the requested validators is an empty array.
pub assert_beacon_validator_absent_iff :
    (env : Env) (syncing validators : Reply)
    → (assert_beacon_validator_absent env syncing validators ≡ ok tt) ↔ (
        (require_beacon_node_url env ≡ ok tt)
        × ((healthy : BeaconSyncing) × (assert_beacon_node_healthy syncing ≡ ok healthy))
        × ((body : Value) × (validators ≡ json body) × (property "data" body ≡ ok (arr nil))))
unfolding assert_beacon_validator_absent assert_no_entry
assert_beacon_validator_absent_iff env syncing validators = (sound, complete)
  where
    sound :
        assert_beacon_validator_absent env syncing validators ≡ ok tt
        → (require_beacon_node_url env ≡ ok tt)
          × ((healthy : BeaconSyncing) × (assert_beacon_node_healthy syncing ≡ ok healthy))
          × ((body : Value) × (validators ≡ json body) × (property "data" body ≡ ok (arr nil)))
    sound h =
        let (named, url, h') = >>=-eq-ok (require_beacon_node_url env) _ h in
        let (healthy, up, h'') = >>=-eq-ok (assert_beacon_node_healthy syncing) _ h' in
        let (vs, listed, none_left) = >>=-eq-ok (fetch_validator_list validators) _ h'' in
        let empty : vs ≡ nil = no_entry vs none_left in
        let listed' : fetch_validator_list validators ≡ ok nil = cc in
        (url, (healthy, up), list_sound validators nil listed')

    complete :
        (require_beacon_node_url env ≡ ok tt)
          × ((healthy : BeaconSyncing) × (assert_beacon_node_healthy syncing ≡ ok healthy))
          × ((body : Value) × (validators ≡ json body) × (property "data" body ≡ ok (arr nil)))
        → assert_beacon_validator_absent env syncing validators ≡ ok tt
    complete (url, (healthy, up), (body, answer, read)) =
        rw (url, up, answer, list_complete body nil read)

required_is_canonical :
    (env : Env) (chain_id : ℕ) (c : Text) (r : Option Text)
    → canonical_genesis_fork_version chain_id ≡ some c
    → required_genesis_fork_version env chain_id ≡ ok r
    → r ≡ some c
unfolding required_genesis_fork_version
required_is_canonical env chain_id c r pinned h =
    elim (Bool-cases (is_empty (env_text env "GENESIS_FORK_VERSION"))) [
      | inl e ↦
          let read : ok (canonical_genesis_fork_version chain_id) ≡ ok r =
            rw (e, required_genesis_fork_version) at h in
          cc
      | inr e ↦ declared (rw (e, required_genesis_fork_version) at h)
    ]
  where
    settled :
        (o : Option Text) (t : Text) → o ≡ some c → settle_fork_version o t ≡ ok r → r ≡ some c
    settled none t o h = cc
    settled (some d) t o h =
        let (_, same, h') = >>=-eq-ok (guard (same_text t d) fork_version_overruled) _ h in
        let equal : t ≡ d = (same_text_iff t d).0 (ground arith) in cc

    declared :
        (do
          given ←
              or_fail
                (normalize_hex_length (env_text env "GENESIS_FORK_VERSION") 4)
                fork_version_malformed
          settle_fork_version (canonical_genesis_fork_version chain_id) (to_lower_case given))
          ≡ ok r
        → r ≡ some c
    declared h =
        let (given, _, h') =
          >>=-eq-ok
            (or_fail (normalize_hex_length (env_text env "GENESIS_FORK_VERSION") 4)
              fork_version_malformed)
            _ h in
        settled (canonical_genesis_fork_version chain_id) (to_lower_case given) pinned h'

-- On a chain with a pinned genesis fork version, the version that is returned is the pinned one,
-- whatever the environment declares and the beacon node reports.
pub read_beacon_genesis_fork_version_pinned :
    (env : Env) (chain_id : ℕ) (syncing genesis : Reply) (c v : Text)
    → canonical_genesis_fork_version chain_id ≡ some c
    → read_beacon_genesis_fork_version env chain_id syncing genesis ≡ ok v
    → v ≡ c
unfolding read_beacon_genesis_fork_version
read_beacon_genesis_fork_version_pinned env chain_id syncing genesis c v pinned h =
    let (_, _, h') = >>=-eq-ok (require_beacon_node_url env) _ h in
    let (_, _, h'') = >>=-eq-ok (assert_beacon_node_healthy syncing) _ h' in
    let (response, _, h3) = >>=-eq-ok (fetch_beacon_json genesis) _ h'' in
    let (given, _, h4) = >>=-eq-ok (require_beacon_data_envelope response) _ h3 in
    let (reported, _, h5) =
      >>=-eq-ok (reported_version (field_of "genesis_fork_version" given)) _ h4 in
    let (required, settled, h6) = >>=-eq-ok (required_genesis_fork_version env chain_id) _ h5 in
    agree required (to_lower_case reported)
      (required_is_canonical env chain_id c required pinned settled) h6
  where
    agree : (o : Option Text) (t : Text) → o ≡ some c → check_fork_version t o ≡ ok v → v ≡ c
    agree none t o h = cc
    agree (some d) t o h =
        let (_, same, h') = >>=-eq-ok (guard (same_text t d) fork_version_differs) _ h in
        let equal : t ≡ d = (same_text_iff t d).0 (ground arith) in cc
