-- ===== src/Controllers/AgentAction/Approval.antt =====
-- Is an AgentAction approved, and what becomes of one that is not.
use fluxseer_rca.Base.{
  String, Option, none, some, Bool, true, false, ◌&&◌, ◌==◌, ◌!=◌, ℤ, pos, if◌then◌else◌, ◌+ℤ◌,
  int32,
}
use fluxseer_rca.Api.Meta.{Time, set_resource_status}
use fluxseer_rca.Api.Action.{
  AgentAction, AgentActionSpec, AgentActionStatus, AgentActionApprovalStatus,
  AgentActionNotificationStatus, phase_waiting_approval,
}

abbrev pub source_manual_required : String
source_manual_required = "ManualApprovalRequired"

-- `agentActionSpecDigest`: who approved is left out of the digest.
unfoldable pub spec_digest_of : (AgentActionSpec → String) → AgentAction → String
spec_digest_of digest action = digest (record action.spec { approved_by = "" })

unfoldable pub is_approved_by : String → AgentActionSpec → Option AgentActionApprovalStatus → Bool
is_approved_by digest spec none = false
is_approved_by digest spec (some approval) =
    if approval.action_digest != digest
    then false
    else if approval.approved
    then true
    else approval.source == source_manual_required && spec.approved_by != ""

-- `isAgentActionApproved`.
unfoldable pub is_agent_action_approved : (AgentActionSpec → String) → AgentAction → Bool
unfolding is_approved_by
is_agent_action_approved digest action =
    is_approved_by (spec_digest_of digest action) action.spec action.status.approval

-- No valid evaluation is recorded: none at all, or one of another content.
unfoldable pub is_unevaluated : String → Option AgentActionApprovalStatus → Bool
is_unevaluated digest none = true
is_unevaluated digest (some approval) = approval.action_digest != digest

-- The status that asks for approval afresh.
unfoldable pub reset_status : String → Time → AgentAction → AgentActionStatus
reset_status digest now action = record action.status {
  resource =
      set_resource_status phase_waiting_approval "waiting for human approval" action.meta.generation
        now;
  approval = some (record {
    approved = false;
    approved_by = "";
    source = "Pending";
    action_digest = digest;
    approved_generation = action.meta.generation;
    approved_at = none;
    escalated_at = none;
    decided_at = none;
    decided_by = "";
  });
}

unfoldable pub attempts : Option AgentActionNotificationStatus → ℤ
attempts none = pos 1
attempts (some n) = int32 (n.retry_count +ℤ pos 1)
