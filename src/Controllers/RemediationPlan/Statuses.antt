-- ===== src/Controllers/RemediationPlan/Statuses.antt =====
-- The statuses that record a decision, of the plan and of its action
-- (internal/controllers/remediationplan_controller.go).
pub mod Contract
use fluxseer_rca.Base.{String, Option, none, some, Bool, true, false}
use fluxseer_rca.Api.Meta.{Time, set_resource_status}
use fluxseer_rca.Api.Action.{
  AgentAction, AgentActionSpec, AgentActionStatus, AgentActionApprovalStatus, RemediationPlan,
  RemediationPlanStatus, phase_approved, phase_waiting_approval, phase_rejected,
}
use fluxseer_rca.Domain.{ApprovalAction, auto_approve, needs_approval, reject, ApprovalDecision}
use fluxseer_rca.Guardrails.Policy.{PolicyEvaluation}
use fluxseer_rca.Controllers.AgentAction.Approval.{spec_digest_of, source_manual_required}
use fluxseer_rca.Controllers.RemediationPlan.Derive.{approval_source}

abbrev pub approval_decision_actor : String
approval_decision_actor = "fluxseer-rca-policy-engine"

abbrev pub source_auto_approval : String
source_auto_approval = "GuardrailsAutoApproval"

abbrev pub source_rejected : String
source_rejected = "GuardrailsRejected"

-- The phase that a decision leads to.
unfoldable pub phase_of : ApprovalAction → String
phase_of auto_approve = phase_approved
phase_of needs_approval = phase_waiting_approval
phase_of reject = phase_rejected

unfoldable pub plan_message : ApprovalAction → String → String
plan_message auto_approve reason = "policy auto-approved remediation plan"
plan_message needs_approval reason = "human approval required before execution"
plan_message reject reason = reason

-- A rejection is the end.
abbrev pub finish_by : ApprovalAction → Time → Option Time → Option Time
finish_by auto_approve t before = before
finish_by needs_approval t before = before
finish_by reject t before = some t

-- `finished` is the time of the finish that a rejection sets.
unfoldable pub plan_status :
    RemediationPlan → ApprovalDecision → Time → Time → RemediationPlanStatus
unfolding phase_of plan_message
plan_status plan decision now finished = record {
  resource =
      set_resource_status (phase_of decision.action) (plan_message decision.action decision.reason)
        plan.meta.generation now;
  finished_at = finish_by decision.action finished plan.status.finished_at;
}

abbrev pub is_auto : ApprovalAction → Bool
is_auto auto_approve = true
is_auto needs_approval = false
is_auto reject = false

abbrev pub approver_of : ApprovalAction → String → String
approver_of auto_approve name = name
approver_of needs_approval name = ""
approver_of reject name = ""

unfoldable pub source_for : ApprovalAction → String
source_for auto_approve = source_auto_approval
source_for needs_approval = source_manual_required
source_for reject = source_rejected

unfoldable pub approval_record :
    AgentAction → String → PolicyEvaluation → Time → AgentActionApprovalStatus
unfolding source_for
approval_record action content evaluation recorded =
    let decision = evaluation.decision in
    record {
      approved = is_auto decision.action;
      approved_by = approver_of decision.action decision.approved_by;
      source = approval_source evaluation (source_for decision.action);
      action_digest = content;
      approved_generation = action.meta.generation;
      approved_at = none;
      escalated_at = none;
      decided_at = some recorded;
      decided_by = approval_decision_actor;
    }

-- The action's status: the dry run's result, the phase, and the approval bound to the digest of
-- its content.
unfoldable pub decided_status :
    (AgentActionSpec → String) → AgentAction → PolicyEvaluation → Time → AgentActionStatus
unfolding approval_record phase_of
decided_status digest action evaluation recorded =
    let decision = evaluation.decision in
    record action.status {
      resource =
          set_resource_status (phase_of decision.action) decision.reason action.meta.generation
            recorded;
      finished_at = finish_by decision.action recorded action.status.finished_at;
      dry_run_result =
          some (record { result = decision.dry_run_result; recorded_at = some recorded });
      approval = some (approval_record action (spec_digest_of digest action) evaluation recorded);
    }
