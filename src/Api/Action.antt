-- ===== src/Api/Action.antt =====
-- AgentAction and RemediationPlan (api/v1alpha1/types.go).
use fluxseer_rca.Base.{String, List, Option, Bool, ℤ}
use fluxseer_rca.Api.Meta.{
  StringMap, Time, ObjectMeta, TargetRef, NamespacedObjectReference, ResourceStatus,
}
use fluxseer_rca.Api.Evidence.{EvidenceRef}

abbrev pub phase_pending : String
phase_pending = "Pending"

abbrev pub phase_waiting_approval : String
phase_waiting_approval = "WaitingApproval"

abbrev pub phase_approved : String
phase_approved = "Approved"

abbrev pub phase_executing : String
phase_executing = "Executing"

abbrev pub phase_succeeded : String
phase_succeeded = "Succeeded"

abbrev pub phase_failed : String
phase_failed = "Failed"

abbrev pub phase_rejected : String
phase_rejected = "Rejected"

abbrev pub phase_completed : String
phase_completed = "Completed"

abbrev pub phase_escalated : String
phase_escalated = "Escalated"

abbrev pub effectiveness_not_verified : String
effectiveness_not_verified = "NotVerified"

abbrev pub effectiveness_verifying : String
effectiveness_verifying = "Verifying"

abbrev pub effectiveness_completed : String
effectiveness_completed = "Completed"

pub record AgentActionSpec : Type 0 where
  pub target : TargetRef
  pub action_type : String
  pub parameters : StringMap
  pub approved_by : String
  pub dry_run_result : String
  pub ttl_seconds : ℤ
  pub approval_timeout_seconds : ℤ
  pub rollback_plan : List String

pub record AgentActionApprovalStatus : Type 0 where
  pub approved : Bool
  pub approved_by : String
  pub source : String
  pub action_digest : String
  pub approved_generation : ℤ
  pub approved_at : Option Time
  pub escalated_at : Option Time
  pub decided_at : Option Time
  pub decided_by : String

pub record AgentActionNotificationStatus : Type 0 where
  pub last_attempt_at : Option Time
  pub retry_count : ℤ
  pub last_error : String

pub record AgentActionDryRunStatus : Type 0 where
  pub result : String
  pub recorded_at : Option Time

pub record AgentActionExecutionStatus : Type 0 where
  pub phase : String
  pub outcome : String
  pub execution_id : String
  pub idempotency_key : String
  pub attempt : ℤ
  pub failure_reason : String
  pub executor : String
  pub summary : String
  pub started_at : Option Time
  pub finished_at : Option Time
  pub external_ref : String
  pub retryable : Bool

pub record EffectivenessHealthCondition : Type 0 where
  pub type : String
  pub status : String
  pub reason : String
  pub message : String

pub record EffectivenessHealthSnapshot : Type 0 where
  pub generation : ℤ
  pub observed_generation : ℤ
  pub desired_replicas : ℤ
  pub updated_replicas : ℤ
  pub available_replicas : ℤ
  pub ready_replicas : ℤ
  pub conditions : List EffectivenessHealthCondition

pub record EffectivenessBaseline : Type 0 where
  pub captured_at : Option Time
  pub target : TargetRef
  pub target_uid : String
  pub risk_signal_ref : Option NamespacedObjectReference
  pub evidence_refs : List EvidenceRef
  pub health : Option EffectivenessHealthSnapshot
  pub digest : String
  pub unavailable_reason : String

pub record AgentActionEffectivenessStatus : Type 0 where
  pub phase : String
  pub outcome : String
  pub message : String
  pub verification_ref : Option NamespacedObjectReference
  pub baseline : Option EffectivenessBaseline
  pub post_action_health : Option EffectivenessHealthSnapshot
  pub started_at : Option Time
  pub finished_at : Option Time
  pub settling_until : Option Time
  pub observation_until : Option Time

pub record AgentActionStatus : Type 0 where
  pub resource : ResourceStatus
  pub open resource use *
  pub finished_at : Option Time
  pub approval : Option AgentActionApprovalStatus
  pub notification : Option AgentActionNotificationStatus
  pub dry_run_result : Option AgentActionDryRunStatus
  pub execution : Option AgentActionExecutionStatus
  pub effectiveness : Option AgentActionEffectivenessStatus

pub record AgentAction : Type 0 where
  pub meta : ObjectMeta
  pub spec : AgentActionSpec
  pub status : AgentActionStatus

pub record RemediationStep : Type 0 where
  pub name : String
  pub action_type : String
  pub description : String
  pub parameters : StringMap

pub record RemediationPlanSpec : Type 0 where
  pub target : TargetRef
  pub recommended_by : String
  pub severity : String
  pub confidence : ℤ
  pub dry_run : Bool
  pub ttl_seconds : ℤ
  pub approval_timeout_seconds : ℤ
  pub summary : String
  pub rollback_plan : List String
  pub references : List String
  pub steps : List RemediationStep

pub record RemediationPlanStatus : Type 0 where
  pub resource : ResourceStatus
  pub open resource use *
  pub finished_at : Option Time

pub record RemediationPlan : Type 0 where
  pub meta : ObjectMeta
  pub spec : RemediationPlanSpec
  pub status : RemediationPlanStatus
