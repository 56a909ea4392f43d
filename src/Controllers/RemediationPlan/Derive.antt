-- ===== src/Controllers/RemediationPlan/Derive.antt =====
-- The AgentAction that a RemediationPlan asks for (internal/controllers/helpers.go,
-- remediationplan_controller.go).
use fluxseer_rca.Base.{
  String, List, [], ◌∷◌, Option, none, some, ℤ, pos, ltb_ℤ, ◌==◌, if◌then◌else◌, ◌+++◌, first,
}
use fluxseer_rca.Api.Meta.{StringMap, read, assign, Key, Result, ok, ◌>>=◌}
use fluxseer_rca.Api.Policy.{EscalationConfig}
use fluxseer_rca.Api.Action.{
  AgentAction, AgentActionSpec, RemediationPlan, RemediationPlanSpec, RemediationStep,
}
use fluxseer_rca.Domain.{Remediation, auto_approve, needs_approval, reject, ApprovalDecision}
use fluxseer_rca.Guardrails.Policy.{PolicyEvaluation, PolicyReference}
use fluxseer_rca.Controllers.AgentAction.Env.{
  annotation_target_uid, annotation_risk_signal_ref, annotation_escalation_chain_ref,
}

abbrev pub annotation_risk_signal_uid : String
annotation_risk_signal_uid = "fluxseer-rca.aiops.platform/risk-signal-uid"

abbrev no_step : RemediationStep
no_step = record { name = ""; action_type = ""; description = ""; parameters = [] }

abbrev step_or_none : Option RemediationStep → RemediationStep
step_or_none none = no_step
step_or_none (some step) = step

-- `remediationFromPlan`: the first step counts.
unfoldable pub remediation_from_plan : RemediationPlanSpec → Remediation
remediation_from_plan spec =
    let step = step_or_none (first spec.steps) in
    record {
      action_type = step.action_type;
      description = step.description;
      parameters = step.parameters;
      rollback_plan = spec.rollback_plan;
    }

-- `if value != "" { annotations[key] = value }`.
unfoldable pub annotate_unless_empty : String → String → StringMap → StringMap
annotate_unless_empty key value annotations =
    if value == "" then annotations else assign key value annotations

unfoldable pub chain_ref : Option EscalationConfig → String
chain_ref none = ""
chain_ref (some e) = e.escalation_chain_ref

unfoldable pub action_annotations : RemediationPlan → PolicyEvaluation → StringMap → StringMap
unfolding annotate_unless_empty chain_ref
action_annotations plan evaluation annotations =
    annotate_unless_empty annotation_risk_signal_uid
      (read plan.meta.annotations annotation_risk_signal_uid)
      (annotate_unless_empty annotation_risk_signal_ref
        (read plan.meta.annotations annotation_risk_signal_ref)
        (annotate_unless_empty annotation_target_uid
          (read plan.meta.annotations annotation_target_uid)
          (annotate_unless_empty annotation_escalation_chain_ref (chain_ref evaluation.escalation)
            annotations)))

-- Who approved is written for an automatic approval alone; else it stays what it was.
unfoldable pub approver_after : ApprovalDecision → String → String
approver_after decision before = elim decision.action [
  | auto_approve ↦ decision.approved_by
  | needs_approval ↦ before
  | reject ↦ before
]

unfoldable pub action_spec :
    RemediationPlanSpec → ApprovalDecision → ℤ → AgentActionSpec → AgentActionSpec
unfolding approver_after
action_spec plan decision timeout old =
    let step = remediation_from_plan plan in
    record {
      target = plan.target;
      action_type = step.action_type;
      parameters = step.parameters;
      approved_by = approver_after decision old.approved_by;
      dry_run_result = decision.dry_run_result;
      ttl_seconds = plan.ttl_seconds;
      approval_timeout_seconds = timeout;
      rollback_plan = plan.rollback_plan;
    }

-- The mutation that `CreateOrUpdate` applies, after the owner is set.
unfoldable pub derive : RemediationPlan → PolicyEvaluation → ℤ → AgentAction → AgentAction
unfolding action_annotations action_spec
derive plan evaluation timeout action = record action {
  meta = record action.meta {
    labels = plan.meta.labels;
    annotations = action_annotations plan evaluation action.meta.annotations;
  };
  spec = action_spec plan.spec evaluation.decision timeout action.spec;
}

unfoldable pub mutate :
    (RemediationPlan → AgentAction → Result AgentAction)
    → RemediationPlan
    → PolicyEvaluation
    → ℤ
    → AgentAction
    → Result AgentAction
mutate set_reference plan evaluation timeout action = do
  owned ← set_reference plan action
  ok (derive plan evaluation timeout owned)

-- The policy's timeout, where it sets one.
unfoldable pub timeout_of : RemediationPlan → PolicyEvaluation → ℤ
timeout_of plan evaluation =
    if ltb_ℤ (pos 0) evaluation.approval_timeout_seconds
    then evaluation.approval_timeout_seconds
    else plan.spec.approval_timeout_seconds

unfoldable pub action_key_of : RemediationPlan → Key
action_key_of plan = record { namespace = plan.meta.namespace; name = plan.meta.name +++ "-action" }

unfoldable pub source_of : Option PolicyReference → String → String
source_of none fallback = fallback
source_of (some p) fallback =
    p.kind +++ "/" +++ p.namespace +++ "/" +++ p.name +++ "@" +++ p.version

-- `approvalSource`.
unfoldable pub approval_source : PolicyEvaluation → String → String
unfolding source_of
approval_source evaluation fallback = source_of evaluation.policy fallback

-- `defaultRollbackPlan`.
unfoldable pub default_rollback_plan : String → List String
default_rollback_plan action_type =
    if action_type == "kubernetes.rolloutRestart"
    then "verify the restarted Deployment rollout and revert the triggering workload change if health does not recover"
      ∷ []
    else if action_type == "kubernetes.rolloutPause"
    then "resume rollout after validation" ∷ "revert deployment image if crash loop persists" ∷ []
    else if action_type == "kubernetes.scaleDeployment"
    then "restore previous replica count" ∷ []
    else if action_type == "gitops.createPullRequest"
    then "close PR if mitigation is not needed" ∷ []
    else if action_type == "runbook.triggerWorkflow"
    then "cancel workflow run if approval is revoked" ∷ []
    else if action_type == "notification.sendSlack"
    then "notify responders that the alert was informational only" ∷ []
    else "manual rollback required" ∷ []
