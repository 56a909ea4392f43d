-- ===== src/Controllers/RemediationPlan/Admission/Conflict.antt =====
-- A rejection that meets a conflict.
use fluxseer_rca.Base.{String, ◌∷◌, ◌≡◌, refl, ◌⊎◌, inl, inr, Bool-cases}
use fluxseer_rca.Api.Meta.{Time, err, conflict, set_resource_status}
use fluxseer_rca.Api.Action.{RemediationPlan}
use fluxseer_rca.Thresholds.Enforcer.{EnforcementResult}
use fluxseer_rca.Controllers.Flow.{State, next, done, event, pure, query, write, ◌>>=◌, and_then}
use fluxseer_rca.Controllers.Events.{warning}
use fluxseer_rca.Controllers.RemediationPlan.Env.{Env, plan_status_changed}
use fluxseer_rca.Controllers.RemediationPlan.Admission
use fluxseer_rca.Controllers.RemediationPlan.Admission.{
  after_rejection, save_rejected, exceeded_status, threshold_message, reject_for_threshold,
}

module _ {W : Type 0} (env : Env W) (plan : RemediationPlan) (result : EnforcementResult) where
  -- Where the server answers the rejection of a plan with a conflict, nothing is stored, and the
  -- run still ends without an error and without a requeue: at most it announces the rejection.
  pub reject_for_threshold-silent :
      (t : Time) (s : State W) (why : String)
      → (env.update_plan_status (record plan { status = exceeded_status plan result t }) s.world).0
        ≡ err (conflict why)
      → ((reject_for_threshold env plan result t s).0 ≡ next done)
        × (((reject_for_threshold env plan result t s).1.log ≡ s.log)
            ⊎ ((reject_for_threshold env plan result t s).1.log
                ≡ (event warning "NamespaceThresholdExceeded" (threshold_message result) ∷ s.log)))
  unfolding reject_for_threshold save_rejected exceeded_status after_rejection Admission.warn query
      ◌>>=◌ and_then pure write set_resource_status
  reject_for_threshold-silent t s why h =
      elim (Bool-cases
        (plan_status_changed env.same_instant plan.status (exceeded_status plan result t))) [
          | inl c ↦ elim (Bool-cases env.has_recorder) [
            | inl r ↦ rw (c, h, r) (refl, inr refl)
            | inr r ↦ rw (c, h, r) (refl, inl refl)
          ]
          | inr c ↦ rw c (refl, inl refl)
        ]
