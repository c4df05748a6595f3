-- ===== src/Signer/Structure.antt =====
-- The comparison of a transaction's structured fields (scripts/lib/common.ts, `canonicalStructure`
-- and `sameOptionalStructure`).
pub mod Laws
use validator_funding_pool.Base.{
  Bool, true, false, List, [], ◌∷◌, ◌++◌, Option, none, some, ltb, ◌==◌, if◌then◌else◌,
}
use validator_funding_pool.Decimal.{Text, decimal}
use validator_funding_pool.Text.{codes, same_text, to_lower_case}
use validator_funding_pool.Value.{
  Value, Values, Fields, undefined, null, bool, nat, negative, fraction, bigint, str, arr, obj, nil,
  cons, end, field,
}

-- `left < right` of two texts.
unfoldable pub ltb_text : Text → Text → Bool
ltb_text s [] = false
ltb_text [] (d ∷ t) = true
ltb_text (c ∷ s) (d ∷ t) = if c == d then ltb_text s t else ltb c d

-- Entries sorted by their keys, each rendered already.
abbrev pub insert_entry : Text × Text → List (Text × Text) → List (Text × Text)
insert_entry e [] = e ∷ []
insert_entry e (f ∷ es) = if ltb_text f.0 e.0 then f ∷ insert_entry e es else e ∷ f ∷ es

-- `entries.map(([key, entry]) => `${key}:${entry}`).join(",")`
abbrev pub join_entries : List (Text × Text) → Text
join_entries [] = []
join_entries ((k, v) ∷ []) = k ++ (codes ":" ++ v)
join_entries ((k, v) ∷ e ∷ es) = k ++ (codes ":" ++ (v ++ (codes "," ++ join_entries (e ∷ es))))

-- A number of the source is a whole one or another.
unfoldable mutual
  pub canonical_structure : Value → Text
  canonical_structure (bigint n) = codes "bigint:" ++ decimal n
  canonical_structure (str t) = codes "string:" ++ to_lower_case t
  canonical_structure (arr vs) = codes "[" ++ (canonical_values vs ++ codes "]")
  canonical_structure (obj fs) = codes "{" ++ (join_entries (canonical_fields fs) ++ codes "}")
  canonical_structure undefined = codes "undefined:undefined"
  canonical_structure null = codes "object:null"
  canonical_structure (bool true) = codes "boolean:true"
  canonical_structure (bool false) = codes "boolean:false"
  canonical_structure (nat n) = codes "number:" ++ decimal n
  canonical_structure (negative n) = codes "number:-" ++ decimal n
  canonical_structure (fraction t) = codes "number:" ++ t

  pub canonical_values : Values → Text
  canonical_values nil = []
  canonical_values (cons v nil) = canonical_structure v
  canonical_values (cons v (cons w vs)) =
      canonical_structure v ++ (codes "," ++ canonical_values (cons w vs))

  pub canonical_fields : Fields → List (Text × Text)
  canonical_fields end = []
  canonical_fields (field k undefined fs) = canonical_fields fs
  canonical_fields (field k v fs) =
      insert_entry (codes k, canonical_structure v) (canonical_fields fs)

unfoldable pub same_optional_structure : Option Value → Option Value → Bool
unfolding canonical_structure
same_optional_structure none none = true
same_optional_structure (some v) (some w) =
    same_text (canonical_structure v) (canonical_structure w)
same_optional_structure _ _ = false
