-- ===== src/Diagnostic/Scheduling/Verdict.antt =====
-- When the scheduling diagnostic supports a mechanism, and what its claims rest on.
use fluxseer_rca.Base.{
  String, List, [], ◌∷◌, Bool, true, false, ◌||◌, ◌≡◌, ◌≢◌, ◌↔◌, inl, inr, refl, sym, ◌∙◌, ap, Char,
  All, All-map, members-All, Bool-cases, Option-cases, any, if◌then◌else◌, All-sort_stable,
}
use mathlib.Core.List.{Memᴰ}
use fluxseer_rca.Diagnostic.Types.{
  SchedulingObservation, status_supported, status_inconclusive, status_not_applicable,
}
use fluxseer_rca.Diagnostic.Scheduling.{Survey, skip_reason}
use fluxseer_rca.Diagnostic.Scheduling.Evaluate.{
  survey_all, unsurveyed, status_of, claim_before, concluded, evaluate,
}
use fluxseer_rca.Diagnostic.Scheduling.Supported.{
  IsUsable, Blocks, IsDrawnFrom, usable, not_skipped, survey_all-All,
}
use fluxseer_rca.Diagnostic.Scheduling.Flags.{
  flagged, has_gate, blocked, reports, or_true, survey_all-flagged,
}

-- The observation is usable, is not truncated, and says what blocks its Pod.
abbrev pub IsReport : (Char → Char) → SchedulingObservation → Type 0
IsReport beyond o = IsUsable o × (o.truncated ≡ false) × Blocks beyond o

any-found :
    {A : Type 0} (p : A → Bool) (xs : List A) → any p xs ≡ true → (x : A) × Memᴰ x xs × (p x ≡ true)
any-found p [] h = cc
any-found p (x ∷ xs) h = elim (Bool-cases (p x)) [
  | inl e ↦ (x, Memᴰ.head refl, e)
  | inr e ↦ let (y, m, k) = any-found p xs (rw e at h) in (y, Memᴰ.tail m, k)
]

any-member :
    {A : Type 0} (p : A → Bool) {x : A} (xs : List A) → Memᴰ x xs → p x ≡ true → any p xs ≡ true
any-member p [] m h = elim m [ ]
any-member p (y ∷ ys) (Memᴰ.head e) h = rw (sym (ap p e) ∙ h) refl
any-member p (y ∷ ys) (Memᴰ.tail m) h = rw (any-member p ys m h) (sym (or_true (p y)))

has_gate_iff : (gates : List String) → (has_gate gates ≡ true) ↔ (gates ≢ [])
unfolding has_gate
has_gate_iff [] = (λ h. cc, λ h. elim (h refl) [ ])
has_gate_iff (g ∷ gs) = (λ h e. cc, λ h. refl)

blocked-Blocks :
    (beyond : Char → Char) (o : SchedulingObservation) (truncated : Bool)
    → blocked beyond o truncated ≡ true
    → (truncated ≡ false) × Blocks beyond o
unfolding blocked
blocked-Blocks beyond o true h = cc
blocked-Blocks beyond o false h = elim (Bool-cases (has_gate o.scheduling_gates)) [
  | inl e ↦ (refl, inl ((has_gate_iff o.scheduling_gates).0 e))
  | inr e ↦ (refl, inr (rw e at h))
]

Blocks-blocked :
    (beyond : Char → Char) (o : SchedulingObservation) (truncated : Bool)
    → truncated ≡ false
    → Blocks beyond o
    → blocked beyond o truncated ≡ true
unfolding blocked
Blocks-blocked beyond o true t h = cc
Blocks-blocked beyond o false t (inl g) = rw ((has_gate_iff o.scheduling_gates).1 g) refl
Blocks-blocked beyond o false t (inr u) = rw u (sym (or_true (has_gate o.scheduling_gates)))

not_supported : status_not_applicable ≢ status_supported
not_supported h = cc

supported_where :
    (b c : Bool)
    → ((if b then status_supported else if c then status_inconclusive else status_not_applicable)
        ≡ status_supported)
      ↔ (b ≡ true)
supported_where true c = (λ h. refl, λ h. refl)
supported_where false true = (λ h. cc, λ h. cc)
supported_where false false = (λ h. cc, λ h. cc)

status_of-flagged : (s : Survey) → (status_of s ≡ status_supported) ↔ (flagged s ≡ true)
unfolding status_of flagged
status_of-flagged s = supported_where (s.observed_failure || s.observed_gate) _

module _ (quote : String → String) (beyond : Char → Char) where
  reports-IsReport :
      (o : SchedulingObservation) → (reports beyond quote o ≡ true) ↔ IsReport beyond o
  unfolding reports
  reports-IsReport o = (
    λ h. elim (Option-cases (skip_reason quote o)) [
      | inl e ↦
          let (t, b) = blocked-Blocks beyond o o.truncated (rw e at h) in (usable quote o e, t, b)
      | inr (w, e) ↦ cc (rw e at h)
    ],
    λ r. rw (not_skipped quote o r.0) (Blocks-blocked beyond o o.truncated r.1 r.2),
  )

  any-IsReport :
      (os : List SchedulingObservation)
      → (any (reports beyond quote) os ≡ true)
        ↔ ((o : SchedulingObservation) × Memᴰ o os × IsReport beyond o)
  any-IsReport os = (
    λ h. let (o, m, k) = any-found (reports beyond quote) os h in (o, m, (reports-IsReport o).0 k),
    λ r. any-member (reports beyond quote) os r.1 ((reports-IsReport r.0).1 r.2),
  )

  survey_of : List SchedulingObservation → Survey
  survey_of os = survey_all quote beyond unsurveyed os

  survey_of-flagged :
      (os : List SchedulingObservation) → flagged (survey_of os) ≡ any (reports beyond quote) os
  unfolding survey_of flagged unsurveyed
  survey_of-flagged os = survey_all-flagged beyond quote unsurveyed os

  evaluate-status :
      (o : SchedulingObservation) (os : List SchedulingObservation)
      → (evaluate quote beyond (o ∷ os)).status ≡ status_of (survey_of (o ∷ os))
  unfolding evaluate concluded survey_of
  evaluate-status o os = refl

  evaluate-nothing : (evaluate quote beyond []).status ≡ status_not_applicable
  unfolding evaluate
  evaluate-nothing = refl

  nothing_supported : (evaluate quote beyond []).status ≢ status_supported
  nothing_supported h = not_supported (sym evaluate-nothing ∙ h)

  -- The diagnostic supports a mechanism exactly where some usable observation that is not truncated
  -- has a gate that holds its Pod, or reports that its scheduling failed.
  pub evaluate-Supported_iff :
      (os : List SchedulingObservation)
      → ((evaluate quote beyond os).status ≡ status_supported)
        ↔ ((o : SchedulingObservation) × Memᴰ o os × IsReport beyond o)
  evaluate-Supported_iff [] = (λ h. elim (nothing_supported h) [ ], λ r. elim r.1 [ ])
  evaluate-Supported_iff (o ∷ os) = (
    λ h. (any-IsReport (o ∷ os)).0 (
        sym (survey_of-flagged (o ∷ os))
        ∙ (status_of-flagged (survey_of (o ∷ os))).0 (sym (evaluate-status o os) ∙ h)),
    λ r.
        evaluate-status o os
        ∙ (status_of-flagged (survey_of (o ∷ os))).1
            (survey_of-flagged (o ∷ os) ∙ (any-IsReport (o ∷ os)).1 r),
  )

  -- Every claim of the diagnostic names the Pod and the evidence of one of the observations, a
  -- usable one. An observation is claimed of a Pod without a Node only; a failure mechanism where
  -- the observation is not truncated and says what blocks the Pod; a root cause where moreover
  -- it reports that the scheduling failed.
  pub evaluate-IsDrawn :
      (os : List SchedulingObservation)
      → All
          (λ c. (o : SchedulingObservation) × Memᴰ o os × IsDrawnFrom beyond o c)
          (evaluate quote beyond os).claims
  unfolding evaluate concluded unsurveyed
  evaluate-IsDrawn [] = tt
  evaluate-IsDrawn (o ∷ os) = All-sort_stable _ claim_before _ (
      survey_all-All beyond _ quote unsurveyed (o ∷ os)
        (All-map (λ x m c d. (x, m, d)) (o ∷ os) (members-All (o ∷ os))) tt)
