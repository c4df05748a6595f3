-- ===== src/Text/Laws.antt =====
-- Equality of texts, with and without their letters' case.
use validator_funding_pool.Base.{
  ℕ, ◌≡◌, refl, sym, ◌∙◌, ◌↔◌, true, [], ◌∷◌, arith, ◌==◌, ==_iff, and-true,
}
use validator_funding_pool.Decimal.{Text}
use validator_funding_pool.Text.{same_text, lower, to_lower_case, same_hex}

pub same_text_sound : (s t : Text) → same_text s t ≡ true → s ≡ t
unfolding same_text
same_text_sound [] [] h = refl
same_text_sound (c ∷ s) (d ∷ t) h =
    let (first, rest) = and-true (c == d) (same_text s t) h in
    cc ((==_iff c d).0 first, same_text_sound s t rest)
same_text_sound [] (d ∷ t) h = cc
same_text_sound (c ∷ s) [] h = cc

pub same_text_refl : (t : Text) → same_text t t ≡ true
unfolding same_text
same_text_refl [] = refl
same_text_refl (c ∷ t) = rw ((==_iff c c).1 refl, same_text_refl t)

pub same_text_iff : (s t : Text) → (same_text s t ≡ true) ↔ (s ≡ t)
same_text_iff s t = (same_text_sound s t, λ e. rw e (same_text_refl t))

-- Two hex texts are the same if they differ in the case of their letters at most.
pub same_hex_iff : (s t : Text) → (same_hex s t ≡ true) ↔ (to_lower_case s ≡ to_lower_case t)
unfolding same_hex
same_hex_iff s t = same_text_iff (to_lower_case s) (to_lower_case t)

pub same_hex_refl : (t : Text) → same_hex t t ≡ true
same_hex_refl t = (same_hex_iff t t).1 refl

pub same_hex_symm : (s t : Text) → same_hex s t ≡ true → same_hex t s ≡ true
same_hex_symm s t h = (same_hex_iff t s).1 (sym ((same_hex_iff s t).0 h))

pub same_hex_trans :
    (s t u : Text) → same_hex s t ≡ true → same_hex t u ≡ true → same_hex s u ≡ true
same_hex_trans s t u h k = (same_hex_iff s u).1 ((same_hex_iff s t).0 h ∙ (same_hex_iff t u).0 k)

lower-lower : (c : ℕ) → lower (lower c) ≡ lower c
unfolding lower
lower-lower c = ground arith

pub to_lower_case_idem : (t : Text) → to_lower_case (to_lower_case t) ≡ to_lower_case t
unfolding to_lower_case
to_lower_case_idem [] = refl
to_lower_case_idem (c ∷ t) = cc (lower-lower c, to_lower_case_idem t)
