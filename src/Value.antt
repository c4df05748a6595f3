-- ===== src/Value.antt =====
-- The values that scripts/lib/common.ts receives from `JSON.parse`, from a JSON-RPC client and from
-- a beacon node, before it knows their shape (`unknown` in the source).
pub mod Print
use text.Mathlib.Text.{◌==◌ as str_eq}
use validator_funding_pool.Base.{ℕ, Bool, true, false, String, if◌then◌else◌}
use validator_funding_pool.Decimal.{Text}
use validator_funding_pool.Failure.{Result, ok, err, type_error, not_object}

-- A number is a natural one, a negative whole one, or another, given by the text it prints as.
-- The keys of an object are distinct.
mutual
  pub data Value : Type 0 where
    undefined null : Value
    bool : Bool → Value
    nat : ℕ → Value
    negative : ℕ → Value
    fraction : Text → Value
    bigint : ℕ → Value
    str : Text → Value
    arr : Values → Value
    obj : Fields → Value

  pub data Values : Type 0 where
    nil : Values
    cons : Value → Values → Values

  pub data Fields : Type 0 where
    end : Fields
    field : String → Value → Fields → Fields

unfoldable pub field_of : String → Fields → Value
field_of k end = undefined
field_of k (field j v fs) = if str_eq j k then v else field_of k fs

-- `"k" in object`
unfoldable pub has_field : String → Fields → Bool
has_field k end = false
has_field k (field j v fs) = if str_eq j k then true else has_field k fs

-- `value.k`, for a `k` that no array, text or number has.
unfoldable pub property : String → Value → Result Value
unfolding field_of
property k undefined = err type_error
property k null = err type_error
property k (obj fs) = ok (field_of k fs)
property k _ = ok undefined

-- `asBeaconObject`
unfoldable pub as_beacon_object : Value → Result Fields
as_beacon_object (obj fs) = ok fs
as_beacon_object _ = err not_object
