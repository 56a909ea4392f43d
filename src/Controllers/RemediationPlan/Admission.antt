-- ===== src/Controllers/RemediationPlan/Admission.antt =====
-- The thresholds of a namespace, before a plan is decided on: usage, rejection, defaults
-- (internal/controllers/remediationplan_controller.go).
pub mod Traced
pub mod Defaults
pub mod Conflict
use fluxseer_rca.Base.{
  String, List, [], ◌∷◌, Option, none, some, Bool, true, false, not, ◌&&◌, ◌||◌, ◌==◌, ◌!=◌, ℤ, pos,
  ltb_ℤ, eqb_ℤ, if◌then◌else◌, ◌+++◌, itoa, join, map, count,
}
use fluxseer_rca.Api.Meta.{
  StringMap, Time, Result, ok, err, Error, conflict, is_not_found, wrap_error, set_resource_status,
}
use fluxseer_rca.Api.Policy.{NamespaceThreshold, NamespaceThresholdSpec}
use fluxseer_rca.Api.Action.{
  AgentAction, RemediationPlan, RemediationPlanStatus, phase_succeeded, phase_failed,
  phase_rejected, phase_completed, phase_waiting_approval, phase_escalated,
}
use fluxseer_rca.Thresholds.Enforcer.{
  ThresholdRequest, Usage, ThresholdReference, Resolution, Violation, EnforcementResult,
  evaluate_usage,
}
use fluxseer_rca.Controllers.Flow.{
  Flow, Outcome, done, failed, pure, leave, query, write, or_fail, ◌>>=◌, ◌>>◌, event, plan_saved,
}
use fluxseer_rca.Controllers.Events.{warning}
use fluxseer_rca.Controllers.RemediationPlan.Env.{
  Env, now, persist_namespace_defaults, plan_status_changed,
}

unfoldable pub target_namespace : RemediationPlan → String
target_namespace plan =
    if plan.spec.target.namespace == "" then plan.meta.namespace else plan.spec.target.namespace

-- Counted as active: every phase but the four in which a plan is over.
unfoldable pub is_active_phase : String → Bool
is_active_phase phase = not (
    phase == phase_succeeded
    || (phase == phase_failed || (phase == phase_rejected || phase == phase_completed)))

unfoldable pub is_pending_phase : String → Bool
is_pending_phase phase = phase == phase_waiting_approval || phase == phase_escalated

unfoldable pub usage_of : List RemediationPlan → List AgentAction → Usage
unfolding is_active_phase is_pending_phase
usage_of plans actions = record {
  active_plans = pos (count (λ p. is_active_phase p.status.phase) plans);
  pending_approvals = pos (count (λ a. is_pending_phase a.status.phase) actions);
}

abbrev pub violation_text : Violation → String
violation_text v = v.resource +++ "=" +++ itoa v.current +++ " exceeds limit=" +++ itoa v.limit

abbrev pub exceeded_text : Option Resolution → String
exceeded_text none = "namespace threshold exceeded"
exceeded_text (some r) =
    "namespace threshold " +++ r.reference.namespace +++ "/" +++ r.reference.name +++ "@"
    +++ r.reference.version +++ " exceeded"

unfoldable pub threshold_message : EnforcementResult → String
threshold_message result =
    exceeded_text result.resolution +++ ": " +++ join "; " (map violation_text result.violations)

unfoldable pub exceeded_status : RemediationPlan → EnforcementResult → Time → RemediationPlanStatus
unfolding threshold_message
exceeded_status plan result now = record {
  resource = set_resource_status phase_rejected (threshold_message result) plan.meta.generation now;
  finished_at = some now;
}

-- A default applies where the plan sets nothing.
unfoldable pub takes_default : ℤ → ℤ → Bool
takes_default current default = eqb_ℤ current (pos 0) && ltb_ℤ (pos 0) default

unfoldable pub or_default : ℤ → ℤ → ℤ
unfolding takes_default
or_default current default = if takes_default current default then default else current

unfoldable pub with_defaults : NamespaceThresholdSpec → RemediationPlan → RemediationPlan
unfolding or_default
with_defaults threshold plan = record plan {
  spec = record plan.spec {
    ttl_seconds = or_default plan.spec.ttl_seconds threshold.default_ttl_seconds;
    approval_timeout_seconds =
        or_default plan.spec.approval_timeout_seconds threshold.default_approval_timeout_seconds;
  };
}

unfoldable pub defaults_changed : NamespaceThresholdSpec → RemediationPlan → Bool
unfolding takes_default
defaults_changed threshold plan =
    takes_default plan.spec.ttl_seconds threshold.default_ttl_seconds
    || takes_default plan.spec.approval_timeout_seconds threshold.default_approval_timeout_seconds

abbrev pub is_conflict : Error → Bool
is_conflict (conflict _) = true
is_conflict _ = false

-- A namespace that does not exist has no labels.
unfoldable pub labels_or_none : (String → String) → String → Result StringMap → Result StringMap
labels_or_none quote name (ok labels) = ok labels
labels_or_none quote name (err e) =
    if is_not_found e
    then ok []
    else err (wrap_error ("get target namespace " +++ quote name +++ ": ") e)

abbrev pub listed : {A : Type 0} → String → String → Result A → Result A
listed what name (ok items) = ok items
listed what name (err e) =
    err (wrap_error ("list " +++ what +++ " in namespace " +++ name +++ ": ") e)

module _ {W : Type 0} (env : Env W) where
  -- `namespaceLabels`.
  unfoldable pub namespace_labels : String → Flow W StringMap
  namespace_labels name =
      if name == ""
      then pure []
      else (query (env.get_namespace name) >>= λ r. or_fail (labels_or_none env.quote name r))

  -- `namespaceUsage`.
  unfoldable pub namespace_usage : String → Flow W Usage
  namespace_usage name = do
    p ← query (env.list_plans name)
    plans ← or_fail (listed "remediation plans" (env.quote name) p)
    a ← query (env.list_actions name)
    actions ← or_fail (listed "agent actions" (env.quote name) a)
    pure (usage_of plans actions)

  -- A conflict is counted and not returned: the event follows all the same.
  unfoldable pub after_rejection : RemediationPlan → Result RemediationPlan → Flow W RemediationPlan
  after_rejection plan (ok stored) = write (plan_saved plan) >> pure stored
  after_rejection plan (err e) = if is_conflict e then pure plan else leave (failed e)

  warn : RemediationPlan → Flow W (Unit {0})
  warn plan =
      if env.has_recorder
      then write (event warning "NamespaceThresholdExceeded" plan.status.message)
      else pure tt

  save_rejected : RemediationPlan → RemediationPlanStatus → Flow W Outcome
  unfolding after_rejection warn
  save_rejected plan status =
      let rejected : RemediationPlan = record plan { status = status } in
      if plan_status_changed env.same_instant plan.status status
      then (query (env.update_plan_status rejected) >>= λ r.
          after_rejection rejected r >>= λ stored. warn stored >> pure done)
      else pure done

  -- `rejectForThreshold`.
  unfoldable pub reject_for_threshold : RemediationPlan → EnforcementResult → Time → Flow W Outcome
  unfolding save_rejected exceeded_status
  reject_for_threshold plan result t = save_rejected plan (exceeded_status plan result t)

  -- The defaults of the threshold that applies, if one does, are stored in the plan.
  unfoldable pub apply_defaults : RemediationPlan → Option Resolution → Flow W RemediationPlan
  apply_defaults plan none = pure plan
  apply_defaults plan (some r) =
      if defaults_changed r.threshold.spec plan
      then persist_namespace_defaults env (with_defaults r.threshold.spec plan)
      else pure plan

  enforced : RemediationPlan → EnforcementResult → Flow W RemediationPlan
  unfolding reject_for_threshold apply_defaults
  enforced plan result =
      if result.allowed
      then apply_defaults plan result.resolution
      else (now env >>= λ t. reject_for_threshold plan result t >>= λ outcome. leave outcome)

  enforce :
      RemediationPlan
      → Option (W → Option (Result (List NamespaceThreshold)) × W)
      → Flow W RemediationPlan
  unfolding namespace_labels namespace_usage enforced
  enforce plan none = pure plan
  enforce plan (some list) = do
    labels ← namespace_labels (target_namespace plan)
    usage ← namespace_usage (target_namespace plan)
    reader ← query list
    result ← or_fail (
        evaluate_usage env.selects reader
          (record { namespace = target_namespace plan; namespace_labels = labels }) usage)
    enforced plan result

  -- The plan goes on to the decision, with its defaults, or the reconciler returns.
  unfoldable pub admit : RemediationPlan → Flow W RemediationPlan
  unfolding enforce
  admit plan = enforce plan env.thresholds
