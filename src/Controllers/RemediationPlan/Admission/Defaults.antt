-- ===== src/Controllers/RemediationPlan/Admission/Defaults.antt =====
-- The defaults that a namespace's threshold gives to a plan.
use fluxseer_rca.Base.{false, ℤ, pos, negsuc, eqb_ℤ, ◌≡◌, refl, arith}
use fluxseer_rca.Api.Policy.{NamespaceThresholdSpec}
use fluxseer_rca.Api.Action.{RemediationPlan}
use fluxseer_rca.Controllers.RemediationPlan.Admission.{
  takes_default, or_default, with_defaults, defaults_changed,
}

taken_once : (current default : ℤ) → takes_default (or_default current default) default ≡ false
unfolding takes_default or_default
taken_once (pos n) (pos m) = ground arith
taken_once (pos n) (negsuc m) = ground arith
taken_once (negsuc n) (pos m) = ground arith
taken_once (negsuc n) (negsuc m) = ground arith

kept_unless_zero :
    (current default : ℤ) → eqb_ℤ current (pos 0) ≡ false → or_default current default ≡ current
unfolding takes_default or_default
kept_unless_zero current default h = rw h refl

-- A plan with the defaults of its threshold needs no further update for them, and a time to live
-- or a timeout that the plan sets itself is kept.
pub with_defaults-stable :
    (threshold : NamespaceThresholdSpec) (plan : RemediationPlan)
    → (defaults_changed threshold (with_defaults threshold plan) ≡ false)
      × ((eqb_ℤ plan.spec.ttl_seconds (pos 0) ≡ false
            → (with_defaults threshold plan).spec.ttl_seconds ≡ plan.spec.ttl_seconds)
          × (eqb_ℤ plan.spec.approval_timeout_seconds (pos 0) ≡ false
              → (with_defaults threshold plan).spec.approval_timeout_seconds
                ≡ plan.spec.approval_timeout_seconds))
unfolding defaults_changed with_defaults
with_defaults-stable threshold plan = (
  rw
      (
        taken_once plan.spec.ttl_seconds threshold.default_ttl_seconds,
        taken_once plan.spec.approval_timeout_seconds threshold.default_approval_timeout_seconds,
      )
      refl,
  (kept_unless_zero _ _, kept_unless_zero _ _),
)
