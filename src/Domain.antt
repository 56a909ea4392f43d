-- ===== src/Domain.antt =====
-- The types that the components exchange (internal/domain/types.go).
use fluxseer_rca.Base.{String, List, Bool}
use fluxseer_rca.Api.Meta.{StringMap, Time}

pub record ResourceRef : Type 0 where
  pub cluster : String
  pub namespace : String
  pub kind : String
  pub name : String
  pub api_version : String
  pub service : String

abbrev pub severity_low : String
severity_low = "low"

abbrev pub severity_medium : String
severity_medium = "medium"

abbrev pub severity_high : String
severity_high = "high"

abbrev pub severity_unsafe : String
severity_unsafe = "unsafe"

pub record Remediation : Type 0 where
  pub action_type : String
  pub description : String
  pub parameters : StringMap
  pub rollback_plan : List String

-- The fields that the guardrails read.
pub record ReasoningOutput : Type 0 where
  pub severity : String
  pub remediation : Remediation

pub data ApprovalAction : Type 0 where
  auto_approve needs_approval reject : ApprovalAction

pub record ApprovalDecision : Type 0 where
  pub action : ApprovalAction
  pub approved_by : String
  pub reason : String
  pub dry_run_result : String

abbrev pub outcome_succeeded : String
outcome_succeeded = "Succeeded"

abbrev pub outcome_failed : String
outcome_failed = "Failed"

abbrev pub outcome_unknown : String
outcome_unknown = "Unknown"

pub record ExecutionResult : Type 0 where
  pub execution_id : String
  pub outcome : String
  pub failure_reason : String
  pub started_at : Time
  pub finished_at : Time
  pub external_ref : String
  pub retryable : Bool
  pub executor : String
  pub status : String
  pub summary : String
  pub outputs : StringMap
