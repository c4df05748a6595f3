-- ===== src/Signer/Replacement/Hashes.antt =====
-- The blob hashes of a replaced transaction (scripts/lib/common.ts, `differingSemanticFields`).
use mathlib.Core.Option
use validator_funding_pool.Base.{◌≡◌, true, List, [], ◌∷◌, some, map, All}
use validator_funding_pool.Decimal.{Text}
use validator_funding_pool.Text.{is_hex_of_length, to_lower_case}
use validator_funding_pool.Text.Split.{is_plain, hex-is_plain}
use validator_funding_pool.Value.{arr}
use validator_funding_pool.Signer.{ObservedReplacement}
use validator_funding_pool.Signer.Structure.{canonical_structure}
use validator_funding_pool.Signer.Structure.Laws.{values_of, canonical_structure-values_of}
use validator_funding_pool.Signer.Replacement.{Repriced}

-- Of a transaction that carries blobs, the accepted replacement carries the same ones: hashes of 32
-- bytes that render alike are the same up to case.
Repriced-hashes :
    (r : ObservedReplacement) (t u : Text) (ts us : List Text)
    → Repriced r
    → All (λ v. is_hex_of_length 64 v ≡ true) (t ∷ ts)
    → All (λ v. is_hex_of_length 64 v ≡ true) (u ∷ us)
    → r.replaced_transaction.blob_versioned_hashes ≡ some (arr (values_of (t ∷ ts)))
    → r.transaction.blob_versioned_hashes ≡ some (arr (values_of (u ∷ us)))
    → map to_lower_case (u ∷ us) ≡ map to_lower_case (t ∷ ts)
unfolding Repriced
Repriced-hashes r t u ts us (said, same) h k replaced mined =
    let rendered : Option.map canonical_structure (some (arr (values_of (u ∷ us))))
        ≡ Option.map canonical_structure (some (arr (values_of (t ∷ ts)))) =
      rw (replaced, mined) at same.blob_versioned_hashes in
    (canonical_structure-values_of u t us ts (all_plain (u ∷ us) k) (all_plain (t ∷ ts) h)).0 cc
  where
    all_plain :
        (vs : List Text)
        → All (λ v. is_hex_of_length 64 v ≡ true) vs
        → All (λ v. is_plain v ≡ true) vs
    all_plain [] l = tt
    all_plain (v ∷ vs) l = (hex-is_plain 64 v l.0, all_plain vs l.1)
