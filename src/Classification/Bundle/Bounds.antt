-- ===== src/Classification/Bundle/Bounds.antt =====
-- A merged classification is at least each of those that were merged.
use fluxseer_rca.Base.{
  ℕ, ◌≤◌, String, List, [], ◌∷◌, ◌++◌, Bool, true, false, ◌||◌, ◌==◌, ◌!=◌, ◌≡◌, refl, ◌∙◌, inl,
  inr, Bool-cases, Char, trim_space, arith, All, All-map, map, has_text, has_text-sorted_set,
}
use fluxseer_rca.Api.Evidence.{DataClassification, EvidenceRef}
use fluxseer_rca.Classification.Levels.{level_value, exceeds}
use fluxseer_rca.Classification.Levels.Fixed.{
  level_value_internal, level_value_normal, level_value_empty,
}
use fluxseer_rca.Classification.Bundle.{
  unclassified, tags_of, merge_level, merge_item, merge_items, merge, classification_of,
  bundle_classification,
}

or_assoc : (a b c : Bool) → (a || (b || c)) ≡ ((a || b) || c)
or_assoc true b c = refl
or_assoc false b c = refl

or_left : (a b : Bool) → a ≡ true → (a || b) ≡ true
or_left a b h = rw h refl

or_right : (a b : Bool) → b ≡ true → (a || b) ≡ true
or_right true b h = refl
or_right false b h = h

has_text-append :
    (t : String) (xs ys : List String) → has_text t (xs ++ ys) ≡ (has_text t xs || has_text t ys)
has_text-append t [] ys = refl
has_text-append t (x ∷ xs) ys =
    rw (has_text-append t xs ys) (or_assoc (x == t) (has_text t xs) (has_text t ys))

All-of-map :
    {A B : Type 0} (P : B → Type 0) (f : A → B) (xs : List A)
    → All P (map f xs)
    → All (λ x. P (f x)) xs
All-of-map P f [] h = tt
All-of-map P f (x ∷ xs) h = (h.0, All-of-map P f xs h.1)

module _ (beyond : Char → Char) where
  merge_level_bounds :
      (out level : String)
      → 1 ≤ level_value beyond out
      → (level_value beyond out ≤ level_value beyond (merge_level beyond out level))
        × (level_value beyond level ≤ level_value beyond (merge_level beyond out level))
  unfolding merge_level exceeds
  merge_level_bounds out level h = elim (Bool-cases (trim_space level != "")) [
    | inr e ↦ rw e (omega arith, omega (arith, level_value_empty beyond level e, h))
    | inl e ↦ elim (Bool-cases (exceeds beyond level out)) [
      | inl x ↦ rw (e, x, level_value_normal beyond level) (ground (arith, x), omega arith)
      | inr x ↦ rw (e, x) (omega arith, ground (arith, x))
    ]
  ]

  abbrev value : DataClassification → ℕ
  value c = level_value beyond c.level

  merge_items_level :
      (out : DataClassification) (items : List DataClassification)
      → 1 ≤ value out
      → (value out ≤ value (merge_items beyond out items))
        × All (λ i. value i ≤ value (merge_items beyond out items)) items
  unfolding merge_items merge_item
  merge_items_level out [] h = (omega arith, tt)
  merge_items_level out (item ∷ items) h =
      let (p, q) = merge_level_bounds out.level item.level h in
      let (r, rest) = merge_items_level (merge_item beyond out item) items (omega (arith, p, h)) in
      (omega (arith, p, r), (omega (arith, q, r), rest))

  merge_items_tags :
      (out : DataClassification) (items : List DataClassification)
      → ((t : String)
          → has_text t out.sensitivity_tags ≡ true
          → has_text t (merge_items beyond out items).sensitivity_tags ≡ true)
        × All
            (λ i.
              (t : String)
              → has_text t (tags_of beyond i.sensitivity_tags) ≡ true
              → has_text t (merge_items beyond out items).sensitivity_tags ≡ true)
            items
  unfolding merge_items merge_item
  merge_items_tags out [] = ((λ t h. h), tt)
  merge_items_tags out (item ∷ items) =
      let (p, rest) = merge_items_tags (merge_item beyond out item) items in
      (
        (λ t h. p t (has_text-append t _ _ ∙ or_left _ _ h)),
        ((λ t h. p t (has_text-append t out.sensitivity_tags _ ∙ or_right _ _ h)), rest),
      )

  -- The bundle ranks as high as the item, and has its tags.
  abbrev pub IsCovered : DataClassification → DataClassification → Type 0
  IsCovered bundle item =
      (value item ≤ value bundle)
      × ((tag : String)
          → has_text tag (tags_of beyond item.sensitivity_tags) ≡ true
          → has_text tag bundle.sensitivity_tags ≡ true)

  covered :
      (bundle : DataClassification) (items : List DataClassification)
      → All (λ i. value i ≤ value bundle) items
      → All
          (λ i.
            (t : String)
            → has_text t (tags_of beyond i.sensitivity_tags) ≡ true
            → has_text t bundle.sensitivity_tags ≡ true)
          items
      → All (IsCovered bundle) items
  covered bundle [] p q = tt
  covered bundle (i ∷ items) p q = ((p.0, q.0), covered bundle items p.1 q.1)

  merge_covers : (items : List DataClassification) → All (IsCovered (merge beyond items)) items
  unfolding merge
  merge_covers items =
      covered (merge beyond items) items
        (merge_items_level unclassified items (omega (arith, level_value_internal beyond))).1
        (All-map (λ i h t x. has_text-sorted_set t _ ∙ h t x) items
          (merge_items_tags unclassified items).1)

  pub bundle_covers :
      (refs : List EvidenceRef)
      → All (λ r. IsCovered (bundle_classification beyond refs) (classification_of beyond r)) refs
  unfolding bundle_classification
  bundle_covers [] = tt
  bundle_covers (r ∷ refs) =
      All-of-map _ (classification_of beyond) (r ∷ refs)
        (merge_covers (map (classification_of beyond) (r ∷ refs)))
