-- ===== src/Guardrails/Engine.antt =====
-- The allowlist and severity rules of `Engine.Evaluate` (internal/guardrails/engine.go).
use fluxseer_rca.Base.{ℕ, String, List, Bool, ◌&&◌, ◌==◌, ◌!=◌, leb, any, if◌then◌else◌, ◌+++◌}
use fluxseer_rca.Domain.{
  ResourceRef, ReasoningOutput, ApprovalDecision, auto_approve, needs_approval, reject,
  severity_low, severity_medium, severity_high, severity_unsafe,
}

pub record Policy : Type 0 where
  pub allowed_action_types : List String
  pub protected_namespaces : List String
  pub auto_approve_max_severity : String
  pub require_approval_at_or_above : String

pub record ReviewInput : Type 0 where
  pub resource : ResourceRef
  pub reasoning : ReasoningOutput
  pub environment : String

-- `slices.Contains`.
abbrev pub contains : List String → String → Bool
contains items item = any (λ s. s == item) items

unfoldable pub severity_rank : String → ℕ
severity_rank s =
    if s == severity_low
    then 1
    else if s == severity_medium
    then 2
    else if s == severity_high
    then 3
    else if s == severity_unsafe
    then 4
    else 99

abbrev or_default : String → String → String
or_default s d = if s == "" then d else s

unfoldable pub auto_approve_max : Policy → String
auto_approve_max policy = or_default policy.auto_approve_max_severity severity_low

unfoldable pub approval_min : Policy → String
approval_min policy = or_default policy.require_approval_at_or_above severity_medium

abbrev pub policy_engine_actor : String
policy_engine_actor = "fluxseer-rca-policy-engine"

-- `quote` renders the verb `%q`.
unfoldable pub evaluate : (String → String) → Policy → ReviewInput → ApprovalDecision
evaluate quote policy input =
    let action = input.reasoning.remediation.action_type in
    let severity = input.reasoning.severity in
    if contains policy.allowed_action_types action
    then if contains policy.protected_namespaces input.resource.namespace
        && severity == severity_high
      then record {
        action = needs_approval;
        approved_by = "";
        reason = "high-severity action against protected namespace requires human approval";
        dry_run_result = "dry-run: target exists, policy passes, approval required";
      }
      else if leb (severity_rank severity) (severity_rank (auto_approve_max policy))
      then record {
        action = auto_approve;
        approved_by = policy_engine_actor;
        reason = "low-risk recommendation auto approved";
        dry_run_result = "dry-run: safe to execute";
      }
      else if leb (severity_rank (approval_min policy)) (severity_rank severity)
          && severity != severity_unsafe
      then record {
        action = needs_approval;
        approved_by = "";
        reason = "severity threshold requires human approval";
        dry_run_result = "dry-run: target exists, rollback plan present";
      }
      else record {
        action = reject;
        approved_by = "";
        reason = "unsafe or unsupported severity";
        dry_run_result = "";
      }
    else record {
      action = reject;
      approved_by = "";
      reason = "action type " +++ quote action +++ " is not allowlisted";
      dry_run_result = "";
    }
