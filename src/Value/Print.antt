-- ===== src/Value/Print.antt =====
-- The text that a template literal makes of a value of `JSON.parse` (scripts/lib/common.ts, `asHex` of
-- what is no text, though its type says it is).
use validator_funding_pool.Base.{Bool, true, false, ◌&&◌, ◌||◌, [], ◌∷◌, ◌++◌, ◌==◌, if◌then◌else◌}
use validator_funding_pool.Decimal.{Text, decimal}
use validator_funding_pool.Text.{codes}
use validator_funding_pool.Failure.{Result, ok, err, ◌>>=◌, type_error}
use validator_funding_pool.Value.{
  Value, Values, undefined, null, bool, nat, negative, fraction, bigint, str, arr, obj, nil, cons,
  has_field,
}

-- An element of an array that is joined: `undefined` and `null` leave no text. An object of `JSON.parse`
-- with a key `toString` has no text, since the key's value is no function.
unfoldable mutual
  unfolding has_field

  pub element_text : Value → Result Text
  element_text undefined = ok []
  element_text null = ok []
  element_text (bool true) = ok (codes "true")
  element_text (bool false) = ok (codes "false")
  element_text (nat n) = ok (decimal n)
  element_text (negative n) = ok (codes "-" ++ decimal n)
  element_text (fraction t) = ok t
  element_text (bigint n) = ok (decimal n)
  element_text (str t) = ok t
  element_text (arr vs) = join vs
  element_text (obj fs) =
      if has_field "toString" fs then err type_error else ok (codes "[object Object]")

  -- `values.join(",")`
  pub join : Values → Result Text
  join nil = ok []
  join (cons v nil) = element_text v
  join (cons v (cons w vs)) = do
    first ← element_text v
    rest ← join (cons w vs)
    ok (first ++ (codes "," ++ rest))

-- `${value}`
unfoldable pub template_text : Value → Result Text
unfolding element_text
template_text undefined = ok (codes "undefined")
template_text null = ok (codes "null")
template_text v = element_text v

-- `/^0x/i.test(text)`
abbrev pub has_hex_prefix : Text → Bool
has_hex_prefix (a ∷ b ∷ t) = a == b'0' && (b == b'x' || b == b'X')
has_hex_prefix _ = false

-- `values.slice(2)`
abbrev pub slice_two : Values → Values
slice_two (cons v (cons w vs)) = vs
slice_two _ = nil

-- The text that `asHex` reads. Of an array whose text begins with the prefix, `slice(2)` takes off
-- two elements, and not the prefix.
unfoldable pub hex_argument : Value → Result Text
unfolding template_text
hex_argument (arr vs) = do
  text ← join vs
  rest ← join (slice_two vs)
  ok (if has_hex_prefix text then codes "0x" ++ rest else text)
hex_argument v = template_text v
