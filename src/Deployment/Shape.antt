-- ===== src/Deployment/Shape.antt =====
-- What a deployment record that passes the shape check holds.
use validator_funding_pool.Base.{ℕ, ◌<◌, ◌≡◌, true, Option, none, some, arith}
use validator_funding_pool.Decimal.{Text, decimal}
use validator_funding_pool.Text.{is_hex_of_length}
use validator_funding_pool.Value.{Value, undefined, null, nat, str, field_of}
use validator_funding_pool.Env.{AddressTest, parse_unsigned_decimal}
use validator_funding_pool.Env.Laws.{parse_unsigned_decimal_iff}
use validator_funding_pool.Failure.{
  ok, >>=-eq-ok, Ensures, returned, thrown, bind-Ensures, Ensures-sound,
}
use validator_funding_pool.Deployment.{
  DeploymentRecord, require_record_object, require_chain_id, require_record_address,
  require_record_hex, require_record_window, require_record_forwarder,
  assert_deployment_record_shape,
}

-- If there is a forwarder, its address passes the test.
abbrev pub IsForwarder : AddressTest → Option Text → Type 0
IsForwarder is_address none = Unit {0}
IsForwarder is_address (some a) = is_address true a ≡ true

-- Each address is one that viem's strict `isAddress` accepts (a lowercase one carries no checksum to
-- test), each hash has 32 bytes, the window is a canonical numeral, and the chain id is positive.
pub record IsDeployment (is_address : AddressTest) (d : DeploymentRecord) : Type 0 where
  pub chain : 0 < d.chain_id
  pub pool : is_address true d.pool ≡ true
  pub deposit : is_address true d.deposit_contract ≡ true
  pub predeploy : is_address true d.withdrawal_request_predeploy ≡ true
  pub operator : is_address true d.operator ≡ true
  pub deposit_hash : is_hex_of_length 64 d.deposit_contract_code_hash ≡ true
  pub predeploy_hash : is_hex_of_length 64 d.withdrawal_request_predeploy_code_hash ≡ true
  pub credentials : is_hex_of_length 64 d.withdrawal_credentials ≡ true
  pub window : (n : ℕ) × (d.funding_window_duration ≡ decimal n)
  pub forwarder : IsForwarder is_address d.fee_recipient_forwarder

chain_id_sound : (v : Value) (n : ℕ) → require_chain_id v ≡ ok n → 0 < n
unfolding require_chain_id
chain_id_sound (nat m) n h = ground arith
chain_id_sound _ n h = cc

record_address_sound :
    (is_address : AddressTest) (v : Value) (t : Text)
    → require_record_address is_address v ≡ ok t
    → is_address true t ≡ true
unfolding require_record_address
record_address_sound is_address (str s) t h = ground arith
record_address_sound is_address _ t h = cc

record_hex_sound :
    (v : Value) (t : Text) → require_record_hex v ≡ ok t → is_hex_of_length 64 t ≡ true
unfolding require_record_hex
record_hex_sound (str s) t h = ground arith
record_hex_sound _ t h = cc

record_window_sound :
    (v : Value) (t : Text) → require_record_window v ≡ ok t → (n : ℕ) × (t ≡ decimal n)
unfolding require_record_window
record_window_sound (str s) t h =
    let (n, parsed, h') = >>=-eq-ok (parse_unsigned_decimal s) _ h in
    let numeral : s ≡ decimal n = (parse_unsigned_decimal_iff s n).0 parsed in (n, cc)
record_window_sound _ t h = cc

IsForwarder-Ensures :
    (is_address : AddressTest) (v : Value)
    → Ensures (IsForwarder is_address) (require_record_forwarder is_address v)
unfolding require_record_forwarder
IsForwarder-Ensures is_address undefined = returned tt
IsForwarder-Ensures is_address null = thrown
IsForwarder-Ensures is_address v =
    bind-Ensures (require_record_address is_address v) _
      λ a read. returned (record_address_sound is_address v a read)

shape-Ensures :
    (is_address : AddressTest) (value : Value)
    → Ensures (IsDeployment is_address) (assert_deployment_record_shape is_address value)
unfolding assert_deployment_record_shape
shape-Ensures is_address value = bind-Ensures (require_record_object value) _ λ given _.
    bind-Ensures (require_chain_id (field_of "chainId" given)) _ λ chain c.
      bind-Ensures (require_record_address is_address (field_of "pool" given)) _ λ pool p.
        bind-Ensures (require_record_address is_address (field_of "depositContract" given)) _
          λ deposit d.
            bind-Ensures
              (require_record_address is_address (field_of "withdrawalRequestPredeploy" given)) _
              λ predeploy w.
                bind-Ensures (require_record_address is_address (field_of "operator" given)) _
                  λ operator o.
                    bind-Ensures (require_record_hex (field_of "depositContractCodeHash" given)) _
                      λ hash dh.
                        bind-Ensures
                          (require_record_hex (field_of "withdrawalRequestPredeployCodeHash" given))
                          _
                          λ other wh.
                            bind-Ensures
                              (require_record_hex (field_of "withdrawalCredentials" given)) _
                              λ credentials cr.
                                bind-Ensures
                                  (require_record_window (field_of "fundingWindowDuration" given)) _
                                  λ window fw.
                                    bind-Ensures
                                      (require_record_forwarder is_address
                                        (field_of "feeRecipientForwarder" given))
                                      _
                                      λ forwarder f. returned (record {
                                        chain = chain_id_sound _ chain c;
                                        pool = record_address_sound is_address _ pool p;
                                        deposit = record_address_sound is_address _ deposit d;
                                        predeploy = record_address_sound is_address _ predeploy w;
                                        operator = record_address_sound is_address _ operator o;
                                        deposit_hash = record_hex_sound _ hash dh;
                                        predeploy_hash = record_hex_sound _ other wh;
                                        credentials = record_hex_sound _ credentials cr;
                                        window = record_window_sound _ window fw;
                                        forwarder =
                                            Ensures-sound (IsForwarder-Ensures is_address _)
                                              forwarder f;
                                      })

-- A deployment record that is read has addresses that viem's strict `isAddress` accepts, hashes of
-- 32 bytes, a canonical window and a positive chain id.
pub assert_deployment_record_shape_sound :
    (is_address : AddressTest) (value : Value) (d : DeploymentRecord)
    → assert_deployment_record_shape is_address value ≡ ok d
    → IsDeployment is_address d
assert_deployment_record_shape_sound is_address value d h =
    Ensures-sound (shape-Ensures is_address value) d h
