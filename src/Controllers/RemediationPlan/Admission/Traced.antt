-- ===== src/Controllers/RemediationPlan/Admission/Traced.antt =====
-- The admission of a plan keeps to the protocol.
use fluxseer_rca.Base.{String, List, ◌∷◌, Option, none, some, ◌≡◌, refl, ◌==◌, ◌⊎◌, inl, inr}
use fluxseer_rca.Api.Meta.{Time, Result, ok, err, set_resource_status}
use fluxseer_rca.Api.Policy.{NamespaceThreshold}
use fluxseer_rca.Api.Action.{RemediationPlan, RemediationPlanStatus, phase_rejected}
use fluxseer_rca.Thresholds.Enforcer.{Resolution, EnforcementResult}
use fluxseer_rca.Controllers.Flow.{Effect, event}
use fluxseer_rca.Controllers.Triples.{
  Triple, Triple-pure, Triple-leave, Triple-query, Triple-or_fail, Triple-if, Triple-write,
  Triple-bind,
}
use fluxseer_rca.Controllers.RemediationPlan.Env.{
  Env, plan_status_changed, persist_namespace_defaults,
}
use fluxseer_rca.Controllers.RemediationPlan.Protocol.{
  Stage, fresh, refused, Trace, later, IsReached, default, refuse, warn_unsaved, warn,
}
use fluxseer_rca.Controllers.RemediationPlan.Admission
use fluxseer_rca.Controllers.RemediationPlan.Admission.{
  namespace_labels, namespace_usage, after_rejection, save_rejected, reject_for_threshold,
  apply_defaults, enforced, enforce, admit, exceeded_status, is_conflict, defaults_changed,
}

module _ {W : Type 0} (env : Env W) (start : List Effect) where
  abbrev pub In : Stage → List Effect → Type 0
  In stage log = Trace env.spec_digest start stage log

  abbrev pub Out : List Effect → Type 0
  Out = IsReached env.spec_digest start

  pub reached : (stage : Stage) (log : List Effect) → In stage log → Out log
  reached stage log t = record { stage = stage; trace = t }

  -- A rejection that met a conflict is not stored.
  abbrev Open : List Effect → Type 0
  Open log = In fresh log ⊎ In refused log

  warned : (t r m : String) (log : List Effect) → Open log → Out (event t r m ∷ log)
  warned t r m log (inl p) = reached refused _ (later p (warn_unsaved t r m))
  warned t r m log (inr p) = reached refused _ (later p (warn t r m))

  Open-reached : (log : List Effect) → Open log → Out log
  Open-reached log (inl p) = reached fresh log p
  Open-reached log (inr p) = reached refused log p

  warn_traced : (plan : RemediationPlan) → Triple Open (Admission.warn env plan) (λ _. Out) Out
  unfolding Admission.warn
  warn_traced plan =
      Triple-if env.has_recorder (λ h. Triple-write _ (warned _ _ _))
        (λ h. Triple-pure _ Open-reached)

  after_rejection_traced :
      (plan : RemediationPlan) (r : Result RemediationPlan)
      → plan.status.phase ≡ phase_rejected
      → Triple (In fresh) (after_rejection env plan r) (λ _. Open) Out
  unfolding after_rejection
  after_rejection_traced plan (ok stored) h =
      Triple-bind (Triple-write _ (λ log t. inr (later t (refuse plan h))))
        (λ u. Triple-pure _ (λ log t. t))
  after_rejection_traced plan (err e) h =
      Triple-if (is_conflict e) (λ c. Triple-pure _ (λ log t. inl t))
        (λ c. Triple-leave _ (reached fresh))

  save_rejected_traced :
      (plan : RemediationPlan) (status : RemediationPlanStatus)
      → status.phase ≡ phase_rejected
      → Triple (In fresh) (save_rejected env plan status) (λ _. Out) Out
  unfolding save_rejected
  save_rejected_traced plan status h =
      Triple-if (plan_status_changed env.same_instant plan.status status)
        (λ c. Triple-bind (Triple-query _) (λ r.
          Triple-bind (after_rejection_traced _ r h)
            (λ stored. Triple-bind (warn_traced stored) (λ u. Triple-pure _ (λ log t. t)))))
        (λ c. Triple-pure _ (reached fresh))

  rejection_traced :
      (plan : RemediationPlan) (result : EnforcementResult) (t : Time)
      → Triple (In fresh) (reject_for_threshold env plan result t) (λ _. Out) Out
  unfolding reject_for_threshold exceeded_status set_resource_status
  rejection_traced plan result t = save_rejected_traced plan (exceeded_status plan result t) refl

  apply_defaults_traced :
      (plan : RemediationPlan) (r : Option Resolution)
      → Triple (In fresh) (apply_defaults env plan r) (λ _. In fresh) Out
  unfolding apply_defaults persist_namespace_defaults
  apply_defaults_traced plan none = Triple-pure _ (λ log t. t)
  apply_defaults_traced plan (some r) =
      Triple-if (defaults_changed r.threshold.spec plan)
        (λ c. Triple-bind (Triple-query _) (λ r.
          Triple-bind (Triple-or_fail _ (reached fresh)) (λ stored.
            Triple-bind (Triple-write _ (λ log t. later t (default _)))
              (λ u. Triple-pure _ (λ log t. t)))))
        (λ c. Triple-pure _ (λ log t. t))

  enforced_traced :
      (plan : RemediationPlan) (result : EnforcementResult)
      → Triple (In fresh) (enforced env plan result) (λ _. In fresh) Out
  unfolding enforced
  enforced_traced plan result =
      Triple-if result.allowed (λ c. apply_defaults_traced plan result.resolution)
        (λ c.
          Triple-bind (Triple-query _)
            (λ t. Triple-bind (rejection_traced plan result t) (λ o. Triple-leave o (λ log r. r))))

  pub namespace_labels_traced :
      (name : String) → Triple (In fresh) (namespace_labels env name) (λ _. In fresh) Out
  unfolding namespace_labels
  namespace_labels_traced name =
      Triple-if (name == "") (λ h. Triple-pure _ (λ log t. t))
        (λ h. Triple-bind (Triple-query _) (λ r. Triple-or_fail _ (reached fresh)))

  namespace_usage_traced :
      (name : String) → Triple (In fresh) (namespace_usage env name) (λ _. In fresh) Out
  unfolding namespace_usage
  namespace_usage_traced name = Triple-bind (Triple-query _) (λ p.
      Triple-bind (Triple-or_fail _ (reached fresh)) (λ plans. Triple-bind (Triple-query _) (λ a.
        Triple-bind (Triple-or_fail _ (reached fresh)) (λ actions. Triple-pure _ (λ log t. t)))))

  enforce_traced :
      (plan : RemediationPlan)
      (thresholds : Option (W → Option (Result (List NamespaceThreshold)) × W))
      → Triple (In fresh) (enforce env plan thresholds) (λ _. In fresh) Out
  unfolding enforce
  enforce_traced plan none = Triple-pure _ (λ log t. t)
  enforce_traced plan (some list) = Triple-bind (namespace_labels_traced _) (λ labels.
      Triple-bind (namespace_usage_traced _) (λ usage. Triple-bind (Triple-query _) (λ reader.
        Triple-bind (Triple-or_fail _ (reached fresh)) (λ result. enforced_traced plan result))))

  pub admit_traced :
      (plan : RemediationPlan) → Triple (In fresh) (admit env plan) (λ _. In fresh) Out
  unfolding admit
  admit_traced plan = enforce_traced plan env.thresholds
