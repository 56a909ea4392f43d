-- ===== src/Classification/Egress/Safe.antt =====
-- What is allowed to be sent is within the policy.
use fluxseer_rca.Base.{
  ◌≤◌, String, List, [], ◌∷◌, Bool, true, false, not, ◌&&◌, ◌==◌, ◌!=◌, ◌≡◌, refl, sym, subst, ap,
  ◌∙◌, inl, inr, Bool-cases, Option-cases, Char, arith, All, All-map, find, find-none,
  find-IsFirstPassing, has_text, str_eq→eq, str_ne→ne,
}
use fluxseer_rca.Api.Evidence.{EvidenceRef}
use fluxseer_rca.Classification.Levels.{
  normalize_level, level_value, exceeds, normalize_sensitivity_tag,
}
use fluxseer_rca.Classification.Levels.Fixed.{
  level_value_internal, level_value_blank, level_value_normal, normalize_tag_fixed,
}
use fluxseer_rca.Classification.Bundle.{
  tags_of, not_empty, classification_of, bundle_classification,
}
use fluxseer_rca.Classification.Bundle.Bounds.{bundle_covers}
use fluxseer_rca.Classification.Egress.{
  ModelProviderDataPolicy, decision_allowed, decision_rejected, all_refs_redacted, rejected,
  is_denied, denied_tag, shown, allowed_level, evaluate_provider_policy,
}

required : (a b : Bool) → (a && not b) ≡ false → a ≡ true → b ≡ true
required true true h q = refl
required true false h q = sym h
required false b h q = cc

other_decision : {A : Type 0} → decision_rejected ≡ decision_allowed → A
other_decision h = absurd (str_ne→ne decision_rejected decision_allowed refl h)

module _ (beyond : Char → Char) where
  -- All that the policy asks of the evidence that is sent.
  pub record IsPermitted (policy : ModelProviderDataPolicy) (refs : List EvidenceRef) : Type 0 where
    pub levels :
        All
          (λ r.
            level_value beyond (classification_of beyond r).level
            ≤ level_value beyond policy.maximum_classification)
          refs
    pub tags :
        All
          (λ r.
            (tag : String)
            → has_text tag (tags_of beyond (classification_of beyond r).sensitivity_tags) ≡ true
            → has_text tag (tags_of beyond policy.denied_sensitivity_tags) ≡ false)
          refs
    pub redacted : policy.require_redaction ≡ true → all_refs_redacted refs ≡ true

  -- A tag that counts is not empty, and is its own normal form.
  tag_counts :
      (tag : String) (tags : List String)
      → has_text tag (tags_of beyond tags) ≡ true
      → (not_empty tag ≡ true) × (normalize_sensitivity_tag beyond tag ≡ tag)
  unfolding tags_of
  tag_counts tag [] h = cc
  tag_counts tag (t ∷ ts) h = elim (Bool-cases (not_empty (normalize_sensitivity_tag beyond t))) [
    | inr e ↦ tag_counts tag ts (rw e at h)
    | inl e ↦ elim (Bool-cases (normalize_sensitivity_tag beyond t == tag)) [
      | inl s ↦
          let same = str_eq→eq _ _ s in
          (
            subst (λ u. not_empty u ≡ true) same e,
            ap (normalize_sensitivity_tag beyond) (sym same) ∙ normalize_tag_fixed beyond t ∙ same,
          )
      | inr s ↦ tag_counts tag ts (rw (e, s) at h)
    ]
  ]

  maximum_value :
      (policy : ModelProviderDataPolicy)
      → level_value beyond (allowed_level (normalize_level beyond policy.maximum_classification))
        ≡ level_value beyond policy.maximum_classification
  unfolding allowed_level
  maximum_value policy =
      elim (Bool-cases (normalize_level beyond policy.maximum_classification == "")) [
        | inl e ↦ rw e (
            level_value_internal beyond
            ∙ sym (level_value_blank beyond)
            ∙ ap (level_value beyond) (sym (str_eq→eq _ _ e))
            ∙ level_value_normal beyond policy.maximum_classification)
        | inr e ↦ rw e (level_value_normal beyond policy.maximum_classification)
      ]

  none_denied :
      (tags denied : List String)
      → (denied_tag beyond tags denied != "") ≡ false
      → All (λ t. is_denied beyond denied t ≡ false) tags
  unfolding denied_tag shown
  none_denied tags denied h = elim (Option-cases (find (is_denied beyond denied) tags)) [
    | inl e ↦ find-none (is_denied beyond denied) tags e
    | inr (t, e) ↦
        let hit = (find-IsFirstPassing (is_denied beyond denied) tags e).pass in
        cc ((tag_counts _ denied hit).0, rw (denied_tag, e) at h)
  ]

  among :
      (P : String → Type 0) (tag : String) (tags : List String)
      → has_text tag tags ≡ true
      → All P tags
      → P tag
  among P tag [] h p = cc
  among P tag (t ∷ ts) h p = elim (Bool-cases (t == tag)) [
    | inl e ↦ subst P (str_eq→eq t tag e) p.0
    | inr e ↦ among P tag ts (rw e at h) p.1
  ]

  -- Evidence that an allowed decision covers.
  permitted :
      (policy : ModelProviderDataPolicy) (refs : List EvidenceRef)
      → exceeds beyond
          (bundle_classification beyond refs).level
          (allowed_level (normalize_level beyond policy.maximum_classification))
        ≡ false
      → (denied_tag beyond
            (bundle_classification beyond refs).sensitivity_tags
            policy.denied_sensitivity_tags
          != "")
        ≡ false
      → (policy.require_redaction && not (all_refs_redacted refs)) ≡ false
      → IsPermitted policy refs
  unfolding exceeds
  permitted policy refs x d r =
      let bundle = bundle_classification beyond refs in
      let covers = bundle_covers beyond refs in
      let clear = none_denied bundle.sensitivity_tags policy.denied_sensitivity_tags d in
      record {
        levels = All-map (λ ref c. ground (arith, x, c.0, maximum_value policy)) refs covers;
        tags =
            All-map
              (λ ref c tag h.
                subst (λ t. has_text t (tags_of beyond policy.denied_sensitivity_tags) ≡ false)
                  (tag_counts tag _ h).1
                  (among (λ t. is_denied beyond policy.denied_sensitivity_tags t ≡ false) tag
                    bundle.sensitivity_tags (c.1 tag h) clear))
              refs covers;
        redacted = required policy.require_redaction (all_refs_redacted refs) r;
      }

  -- Evidence that a provider may be sent is within the provider's policy: no reference ranks above
  -- the maximum, none has a tag that is denied (tags in their normal form), and each is marked as
  -- redacted where the policy asks for that. A rejected bundle is recorded as not sent: neither a
  -- level nor a tag.
  pub evaluate_provider_policy-IsPermitted :
      (policy : ModelProviderDataPolicy) (refs : List EvidenceRef)
      → ((evaluate_provider_policy beyond policy refs).decision ≡ decision_allowed
          → IsPermitted policy refs)
        × ((evaluate_provider_policy beyond policy refs).decision ≡ decision_rejected
            → ((evaluate_provider_policy beyond policy refs).maximum_sent ≡ "")
              × ((evaluate_provider_policy beyond policy refs).sensitivity_tags_sent ≡ []))
  unfolding evaluate_provider_policy rejected
  evaluate_provider_policy-IsPermitted policy refs =
      let bundle = bundle_classification beyond refs in
      let allowed = allowed_level (normalize_level beyond policy.maximum_classification) in
      elim (Bool-cases (exceeds beyond bundle.level allowed)) [
        | inl x ↦ rw x ((λ h. other_decision h), (λ h. (refl, refl)))
        | inr x ↦
            elim (Bool-cases
              (denied_tag beyond bundle.sensitivity_tags policy.denied_sensitivity_tags != "")) [
                | inl d ↦ rw (x, d) ((λ h. other_decision h), (λ h. (refl, refl)))
                | inr d ↦
                    elim (Bool-cases (policy.require_redaction && not (all_refs_redacted refs))) [
                      | inl r ↦ rw (x, d, r) ((λ h. other_decision h), (λ h. (refl, refl)))
                      | inr r ↦
                          rw (x, d, r)
                            ((λ h. permitted policy refs x d r), (λ h. other_decision (sym h)))
                    ]
              ]
      ]
