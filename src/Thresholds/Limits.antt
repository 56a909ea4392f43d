-- ===== src/Thresholds/Limits.antt =====
-- What `Evaluate` allows (internal/thresholds/enforcer.go).
use fluxseer_rca.Base.{
  List, [], ◌∷◌, ◌++◌, Option, none, some, Bool, true, false, ◌&&◌, ℤ, pos, ltb_ℤ, ◌≤ℤ◌, ◌≡◌, refl,
  subst, ◌⊎◌, inl, inr, ◌↔◌, arith, if◌then◌else◌,
}
use fluxseer_rca.Api.Meta.{Result, ok, Selects, >>=-eq-ok, ok-injective}
use fluxseer_rca.Api.Policy.{NamespaceThreshold}
use fluxseer_rca.Thresholds.Enforcer.{
  ThresholdRequest, Usage, Resolution, Violation, EnforcementResult, has_none, violations_of,
  enforce_resolution, resolve_threshold, evaluate_usage,
}

-- No limit is set, or the usage is at most the limit.
abbrev pub IsWithin : ℤ → ℤ → Type 0
IsWithin current limit = (limit ≤ℤ pos 0) ⊎ (current ≤ℤ limit)

-- What the resolution limits.
unfoldable pub Complies : Usage → Option Resolution → Type 0
Complies usage none = Unit {0}
Complies usage (some r) =
    IsWithin usage.active_plans r.threshold.spec.active_plans_limit
    × IsWithin usage.pending_approvals r.threshold.spec.pending_approvals_limit

within :
    (current limit : ℤ)
    → (ltb_ℤ (pos 0) limit && ltb_ℤ limit current) ≡ false
    → IsWithin current limit
within current limit h = ground arith

exceeds :
    (current limit : ℤ)
    → (ltb_ℤ (pos 0) limit && ltb_ℤ limit current) ≡ true
    → IsWithin current limit
    → ⊥
exceeds current limit h (inl none_set) = ground arith
exceeds current limit h (inr under) = ground arith

allowed_iff :
    (a b : Bool) (v w : Violation) (plans plan_limit approvals approval_limit : ℤ)
    → (ltb_ℤ (pos 0) plan_limit && ltb_ℤ plan_limit plans) ≡ a
    → (ltb_ℤ (pos 0) approval_limit && ltb_ℤ approval_limit approvals) ≡ b
    → (has_none ((if a then v ∷ [] else []) ++ (if b then w ∷ [] else [])) ≡ true)
      ↔ (IsWithin plans plan_limit × IsWithin approvals approval_limit)
allowed_iff true b v w plans plan_limit approvals approval_limit p q =
    (λ h. cc, λ (x, y). absurd (exceeds plans plan_limit p x))
allowed_iff false true v w plans plan_limit approvals approval_limit p q =
    (λ h. cc, λ (x, y). absurd (exceeds approvals approval_limit q y))
allowed_iff false false v w plans plan_limit approvals approval_limit p q =
    (λ h. (within plans plan_limit p, within approvals approval_limit q), λ h. refl)

resolution_allowed :
    (usage : Usage) (o : Option Resolution)
    → ((enforce_resolution usage o).allowed ≡ true) ↔ Complies usage o
unfolding enforce_resolution violations_of Complies
resolution_allowed usage none = (λ _. tt, λ _. refl)
resolution_allowed usage (some r) = allowed_iff _ _ _ _ _ _ _ _ refl refl

as_resolved :
    (usage : Usage) (o : Option Resolution)
    → (((enforce_resolution usage o).allowed ≡ true) ↔ Complies usage o)
    → (((enforce_resolution usage o).allowed ≡ true)
        ↔ Complies usage (enforce_resolution usage o).resolution)
unfolding enforce_resolution
as_resolved usage none h = h
as_resolved usage (some r) h = h

-- An evaluation allows the usage exactly when, for each of the two limits of the threshold that it
-- resolved, no limit is set or the usage is at most the limit; where it resolved no threshold it
-- allows any usage.
pub evaluate_usage-Complies_iff :
    (selects : Selects) (reader : Option (Result (List NamespaceThreshold)))
    (request : ThresholdRequest) (usage : Usage) (result : EnforcementResult)
    → evaluate_usage selects reader request usage ≡ ok result
    → (result.allowed ≡ true) ↔ Complies usage result.resolution
unfolding evaluate_usage
evaluate_usage-Complies_iff selects reader request usage result h =
    let (o, _, e) = >>=-eq-ok (resolve_threshold selects reader request) _ h in
    subst (λ (x : EnforcementResult). (x.allowed ≡ true) ↔ Complies usage x.resolution)
      (ok-injective e) (as_resolved usage o (resolution_allowed usage o))
