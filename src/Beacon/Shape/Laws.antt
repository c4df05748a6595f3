-- ===== src/Beacon/Shape/Laws.antt =====
-- What the checks of shape let through.
use validator_funding_pool.Base.{ℕ, ◌*◌, ◌≤◌, ◌≡◌, ◌↔◌, true, arith}
use validator_funding_pool.Decimal.{Text, big_int, decimal}
use validator_funding_pool.Decimal.RoundTrip.{
  decimal-big_int, big_int-decimal, decimal-is_canonical,
}
use validator_funding_pool.Text.{same_hex, is_hex_of_length}
use validator_funding_pool.Value.{Value, str, field_of, as_beacon_object}
use validator_funding_pool.Env.{uint64_max}
use validator_funding_pool.Failure.{
  ok, guard, pubkey_differs, Ensures, returned, bind-Ensures, Ensures-sound,
}
use validator_funding_pool.Beacon.Shape.{
  BeaconValidator, parse_beacon_uint64, uint64_text, require_beacon_hex, require_beacon_string,
  require_beacon_boolean, assert_beacon_validator_response_shape,
}

-- A value is read as a number exactly when it is the text of the canonical numeral of that number,
-- which fits 64 bits.
pub parse_beacon_uint64_iff :
    (v : Value) (n : ℕ)
    → (parse_beacon_uint64 v ≡ ok n) ↔ ((v ≡ str (decimal n)) × (n ≤ uint64_max))
unfolding parse_beacon_uint64
parse_beacon_uint64_iff v n =
    (sound v, λ (e, h). rw (e, decimal-is_canonical, big_int-decimal) (ground arith))
  where
    sound : (v : Value) → parse_beacon_uint64 v ≡ ok n → (v ≡ str (decimal n)) × (n ≤ uint64_max)
    sound (str t) h = ground (arith, decimal-big_int t)
    sound _ h = cc

-- A text is the numeral of a number that fits 64 bits.
abbrev pub IsUint64 : Text → Type 0
IsUint64 t = (n : ℕ) × (t ≡ decimal n) × (n ≤ uint64_max)

pub uint64_text-IsUint64 : (v : Value) (t : Text) → uint64_text v ≡ ok t → IsUint64 t
unfolding uint64_text
uint64_text-IsUint64 (str s) t h =
    (big_int t, ground (arith, decimal-big_int s), ground (arith, decimal-big_int s))
uint64_text-IsUint64 _ t h = cc

require_beacon_hex_sound :
    (v : Value) (bytes : ℕ) (t : Text)
    → require_beacon_hex v bytes ≡ ok t
    → is_hex_of_length (bytes * 2) t ≡ true
unfolding require_beacon_hex
require_beacon_hex_sound (str s) bytes t h = ground arith
require_beacon_hex_sound _ bytes t h = cc

-- The validator is the one that was asked for, and each of its fields has its form.
pub record IsWellFormed (requested_pubkey : Text) (v : BeaconValidator) : Type 0 where
  pub requested : same_hex v.pubkey requested_pubkey ≡ true
  pub pubkey : is_hex_of_length 96 v.pubkey ≡ true
  pub credentials : is_hex_of_length 64 v.withdrawal_credentials ≡ true
  pub balance : IsUint64 v.balance
  pub effective_balance : IsUint64 v.effective_balance
  pub eligibility : IsUint64 v.activation_eligibility_epoch
  pub activation : IsUint64 v.activation_epoch
  pub exit : IsUint64 v.exit_epoch
  pub withdrawable : IsUint64 v.withdrawable_epoch

shape-Ensures :
    (reply : Value) (requested_pubkey : Text)
    → Ensures
        (IsWellFormed requested_pubkey)
        (assert_beacon_validator_response_shape reply requested_pubkey)
unfolding assert_beacon_validator_response_shape
shape-Ensures reply requested = bind-Ensures (as_beacon_object reply) _ λ response _.
    bind-Ensures (as_beacon_object (field_of "validator" response)) _ λ validator _.
      bind-Ensures (require_beacon_string (field_of "index" response)) _ λ index _.
        bind-Ensures (require_beacon_string (field_of "status" response)) _ λ status _.
          bind-Ensures (uint64_text (field_of "balance" response)) _ λ balance b.
            bind-Ensures (require_beacon_hex (field_of "pubkey" validator) 48) _ λ pubkey p.
              bind-Ensures (guard (same_hex pubkey requested) pubkey_differs) _ λ _ same.
                bind-Ensures (require_beacon_hex (field_of "withdrawal_credentials" validator) 32) _
                  λ credentials c.
                    bind-Ensures (require_beacon_boolean (field_of "slashed" validator)) _
                      λ slashed _.
                        bind-Ensures (uint64_text (field_of "effective_balance" validator)) _
                          λ effective e.
                            bind-Ensures
                              (uint64_text (field_of "activation_eligibility_epoch" validator)) _
                              λ eligibility g.
                                bind-Ensures (uint64_text (field_of "activation_epoch" validator)) _
                                  λ activation a.
                                    bind-Ensures (uint64_text (field_of "exit_epoch" validator)) _
                                      λ exit x.
                                        bind-Ensures
                                          (uint64_text (field_of "withdrawable_epoch" validator)) _
                                          λ withdrawable w. returned (record {
                                            requested = ground arith;
                                            pubkey = require_beacon_hex_sound _ 48 pubkey p;
                                            credentials =
                                                require_beacon_hex_sound _ 32 credentials c;
                                            balance = uint64_text-IsUint64 _ balance b;
                                            effective_balance = uint64_text-IsUint64 _ effective e;
                                            eligibility = uint64_text-IsUint64 _ eligibility g;
                                            activation = uint64_text-IsUint64 _ activation a;
                                            exit = uint64_text-IsUint64 _ exit x;
                                            withdrawable = uint64_text-IsUint64 _ withdrawable w;
                                          })

-- A reply that passes describes the validator that was asked for, and each field that the preflights
-- read has its form.
pub assert_beacon_validator_response_shape_sound :
    (reply : Value) (requested_pubkey : Text) (v : BeaconValidator)
    → assert_beacon_validator_response_shape reply requested_pubkey ≡ ok v
    → IsWellFormed requested_pubkey v
assert_beacon_validator_response_shape_sound reply requested v h =
    Ensures-sound (shape-Ensures reply requested) v h
