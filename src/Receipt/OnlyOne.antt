-- ===== src/Receipt/OnlyOne.antt =====
-- Lists of logs in which exactly one log matters: the loops over a receipt's logs, described
-- without the loops.
use validator_funding_pool.Base.{
  ◌≡◌, refl, sym, ap, ◌∙◌, ◌↔◌, inl, inr, List, [], ◌∷◌, ◌++◌, Option, none, some, All, foldl,
  Option-cases,
}
use mathlib.Core.List.{append_assoc, append-nil}

-- What is picked of each element, in order.
unfoldable pub picks {ℓ κ} : {A : Type ℓ} {B : Type κ} → (A → Option B) → List A → List B
picks f [] = []
picks f (x ∷ xs) = elim (f x) [ none ↦ picks f xs | some y ↦ y ∷ picks f xs ]

-- A loop that pushes what it picks to a list of its state appends the picked values to it.
pub foldl-picks {ℓ κ ι} :
    {A : Type ℓ} {B : Type κ} {S : Type ι} (f : A → Option B) (step : S → A → S) (view : S → List B)
    → ((s : S) (x : A) → f x ≡ none → view (step s x) ≡ view s)
    → ((s : S) (x : A) (y : B) → f x ≡ some y → view (step s x) ≡ view s ++ (y ∷ []))
    → (s : S) (xs : List A) → view (foldl step s xs) ≡ view s ++ picks f xs
unfolding picks
foldl-picks f step view skip push s [] = sym (append-nil (view s))
foldl-picks f step view skip push s (x ∷ xs) =
    foldl-picks f step view skip push (step s x) xs ∙ (elim (Option-cases (f x)) [
      | inl e ↦ rw (e, picks, skip s x e)
      | inr (y, e) ↦ rw (e, picks, push s x y e) (append_assoc (view s) (y ∷ []) (picks f xs))
    ])

module _ {ℓ κ ι} {A : Type ℓ} {B : Type κ} (P : A → B → Type ι) where
  -- One element of the list has the property, with the value `y`, and no other has it with any.
  pub record OnlyOne (xs : List A) (y : B) : Type (ℓ ⊔ κ ⊔ ι) where
    pub before : List A
    pub element : A
    pub after : List A
    pub parts : xs ≡ before ++ (element ∷ after)
    pub holds : P element y
    pub none_before : All (λ x. (z : B) → ¬ P x z) before
    pub none_after : All (λ x. (z : B) → ¬ P x z) after

module _ {ℓ κ ι} {A : Type ℓ} {B : Type κ} (P : A → B → Type ι) (f : A → Option B)
    (f_iff : (x : A) (y : B) → (f x ≡ some y) ↔ P x y) where
  picks_nothing : (xs : List A) → picks f xs ≡ [] → All (λ x. (z : B) → ¬ P x z) xs
  unfolding picks
  picks_nothing [] h = tt
  picks_nothing (x ∷ xs) h = elim (Option-cases (f x)) [
    | inl e ↦ (λ z p. cc (e, (f_iff x z).1 p), picks_nothing xs (rw (e, picks) at h))
    | inr (y, e) ↦ cc (rw (e, picks) at h)
  ]

  pub nothing_picked : (xs : List A) → All (λ x. (z : B) → ¬ P x z) xs → picks f xs ≡ []
  unfolding picks
  nothing_picked [] h = refl
  nothing_picked (x ∷ xs) h = elim (Option-cases (f x)) [
    | inl e ↦ rw (e, picks) (nothing_picked xs h.1)
    | inr (y, e) ↦ absurd (h.0 y ((f_iff x y).0 e))
  ]

  pub OnlyOne-sound : (xs : List A) (y : B) → picks f xs ≡ y ∷ [] → OnlyOne P xs y
  unfolding picks
  OnlyOne-sound [] y h = cc
  OnlyOne-sound (x ∷ xs) y h = elim (Option-cases (f x)) [
    | inl e ↦
        let rest : OnlyOne P xs y = OnlyOne-sound xs y (rw (e, picks) at h) in
        record {
          before = x ∷ rest.before;
          element = rest.element;
          after = rest.after;
          parts = ap (λ t. x ∷ t) rest.parts;
          holds = rest.holds;
          none_before = (λ z p. cc (e, (f_iff x z).1 p), rest.none_before);
          none_after = rest.none_after;
        }
    | inr (z, e) ↦
        let same : z ∷ picks f xs ≡ y ∷ [] = rw (e, picks) at h in
        let nothing : picks f xs ≡ [] = cc in
        record {
          before = [];
          element = x;
          after = xs;
          parts = refl;
          holds = (f_iff x y).0 (cc);
          none_before = tt;
          none_after = picks_nothing xs nothing;
        }
  ]

  picks_one :
      (before : List A) (x : A) (after : List A) (y : B)
      → All (λ w. (z : B) → ¬ P w z) before
      → P x y
      → All (λ w. (z : B) → ¬ P w z) after
      → picks f (before ++ (x ∷ after)) ≡ y ∷ []
  unfolding picks
  picks_one [] x after y none_before here none_after =
      rw ((f_iff x y).1 here, picks, nothing_picked after none_after)
  picks_one (w ∷ before) x after y none_before here none_after = elim (Option-cases (f w)) [
    | inl e ↦ rw (e, picks) (picks_one before x after y none_before.1 here none_after)
    | inr (z, e) ↦ absurd (none_before.0 z ((f_iff w z).0 e))
  ]

  pub OnlyOne-complete : (xs : List A) (y : B) → OnlyOne P xs y → picks f xs ≡ y ∷ []
  OnlyOne-complete xs y one =
      rw one.parts
        (picks_one one.before one.element one.after y one.none_before one.holds one.none_after)
