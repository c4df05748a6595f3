-- ===== src/Signer/Structure/Laws.antt =====
-- How a list of texts without commas or white space is rendered, such as the hashes of a transaction
-- (scripts/lib/common.ts, `canonicalStructure`).
use validator_funding_pool.Base.{
  ℕ, ◌≡◌, refl, sym, ◌∙◌, ◌↔◌, true, [], ◌∷◌, ◌++◌, List, map, arith, All, and-true,
}
use mathlib.Core.Path.{ap}
use mathlib.Core.List.{append_cancel_left, append_cancel_right}
use validator_funding_pool.Decimal.{Text}
use validator_funding_pool.Text.{codes, is_space, lower, to_lower_case, split_comma}
use validator_funding_pool.Text.Split.{join_comma, is_plain_char, is_plain, split_comma-join_comma}
use validator_funding_pool.Value.{Values, arr, str, nil, cons}
use validator_funding_pool.Signer.Structure.{canonical_structure, canonical_values}

abbrev pub values_of : List Text → Values
values_of [] = nil
values_of (t ∷ ts) = cons (str t) (values_of ts)

abbrev tagged : Text → Text
tagged t = codes "string:" ++ to_lower_case t

values_of-join_comma :
    (ts : List Text) → canonical_values (values_of ts) ≡ join_comma (map tagged ts)
unfolding canonical_structure join_comma
values_of-join_comma [] = refl
values_of-join_comma (t ∷ []) = refl
values_of-join_comma (t ∷ u ∷ ts) = rw (values_of-join_comma (u ∷ ts))

lower-is_plain_char : (c : ℕ) → is_plain_char c ≡ true → is_plain_char (lower c) ≡ true
unfolding lower is_plain_char is_space
lower-is_plain_char c h = ground arith

to_lower_case-is_plain : (t : Text) → is_plain t ≡ true → is_plain (to_lower_case t) ≡ true
unfolding to_lower_case
to_lower_case-is_plain [] h = refl
to_lower_case-is_plain (c ∷ t) h =
    let (first, rest) = and-true (is_plain_char c) (is_plain t) h in
    rw (lower-is_plain_char c first, to_lower_case-is_plain t rest)

tagged-is_plain :
    (ts : List Text)
    → All (λ t. is_plain t ≡ true) ts
    → All (λ t. is_plain t ≡ true) (map tagged ts)
unfolding is_plain_char is_space to_lower_case
tagged-is_plain [] h = tt
tagged-is_plain (t ∷ ts) h = (to_lower_case-is_plain t h.0, tagged-is_plain ts h.1)

tagged_iff :
    (ts us : List Text)
    → (map tagged ts ≡ map tagged us) ↔ (map to_lower_case ts ≡ map to_lower_case us)
tagged_iff [] [] = (λ h. refl, λ h. refl)
tagged_iff [] (u ∷ us) = (λ h. cc, λ h. cc)
tagged_iff (t ∷ ts) [] = (λ h. cc, λ h. cc)
tagged_iff (t ∷ ts) (u ∷ us) =
    (λ h. cc ((tagged_iff ts us).0 cc), λ h. cc ((tagged_iff ts us).1 cc))

-- Two arrays of such texts, which are not empty, render alike exactly when their texts are the same
-- up to the case of their letters, one by one.
pub canonical_structure-values_of :
    (t u : Text) (ts us : List Text)
    → All (λ v. is_plain v ≡ true) (t ∷ ts)
    → All (λ v. is_plain v ≡ true) (u ∷ us)
    → (canonical_structure (arr (values_of (t ∷ ts)))
        ≡ canonical_structure (arr (values_of (u ∷ us))))
      ↔ (map to_lower_case (t ∷ ts) ≡ map to_lower_case (u ∷ us))
unfolding canonical_structure
canonical_structure-values_of t u ts us h k = (sound, complete)
  where
    split :
        (v : Text) (vs : List Text)
        → All (λ w. is_plain w ≡ true) (v ∷ vs)
        → split_comma (canonical_values (values_of (v ∷ vs))) ≡ map tagged (v ∷ vs)
    split v vs l =
        rw (values_of-join_comma (v ∷ vs))
          (split_comma-join_comma (tagged v) (map tagged vs) (tagged-is_plain (v ∷ vs) l))

    sound :
        canonical_structure (arr (values_of (t ∷ ts)))
          ≡ canonical_structure (arr (values_of (u ∷ us)))
        → map to_lower_case (t ∷ ts) ≡ map to_lower_case (u ∷ us)
    sound e =
        let inner = append_cancel_left (codes "[") _ _ e in
        let same : canonical_values (values_of (t ∷ ts)) ≡ canonical_values (values_of (u ∷ us)) =
          append_cancel_right _ _ (codes "]") inner in
        (tagged_iff (t ∷ ts) (u ∷ us)).0 (sym (split t ts h) ∙ ap split_comma same ∙ split u us k)

    complete :
        map to_lower_case (t ∷ ts) ≡ map to_lower_case (u ∷ us)
        → canonical_structure (arr (values_of (t ∷ ts)))
          ≡ canonical_structure (arr (values_of (u ∷ us)))
    complete e =
        let same : canonical_values (values_of (t ∷ ts)) ≡ canonical_values (values_of (u ∷ us)) =
          rw (values_of-join_comma (t ∷ ts), values_of-join_comma (u ∷ us))
            (ap join_comma ((tagged_iff (t ∷ ts) (u ∷ us)).1 e)) in
        ap (λ text. codes "[" ++ (text ++ codes "]")) same
