-- ===== src/Api/Policy.antt =====
-- ApprovalPolicy, NamespaceThreshold and EscalationChain
-- (api/v1alpha1/approvalpolicy_types.go, namespacethreshold_types.go, escalationchain_types.go).
use fluxseer_rca.Base.{String, List, Option, Bool, ℤ}
use fluxseer_rca.Api.Meta.{StringMap, ObjectMeta, LabelSelector}

pub record ActionTypeRule : Type 0 where
  pub action_type : String
  pub action : String
  pub reason : String

pub record SeverityRule : Type 0 where
  pub min_severity : String
  pub max_severity : String
  pub action : String
  pub reason : String
  pub timeout_sec : ℤ

pub record EscalationRule : Type 0 where
  pub trigger : String
  pub condition : ℤ
  pub action : String
  pub targets : List String
  pub notification_template : String

pub record NotificationChannel : Type 0 where
  pub type : String
  pub url : String
  pub headers : StringMap
  pub slack_teams : List String
  pub email_addresses : List String
  pub pager_duty_key : String
  pub enabled : Bool

pub record EscalationConfig : Type 0 where
  pub escalation_chain_ref : String
  pub rules : List EscalationRule
  pub notification_channels : List NotificationChannel

pub record ApprovalPolicySpec : Type 0 where
  pub scope : String
  pub resource_selector : Option LabelSelector
  pub namespace_selector : Option LabelSelector
  pub action_type_rules : List ActionTypeRule
  pub severity_rules : List SeverityRule
  pub default_approval_timeout : ℤ
  pub escalation : Option EscalationConfig
  pub priority : ℤ
  pub enabled : Bool

-- The status of the three kinds; the code reads its phase alone.
pub record PolicyStatus : Type 0 where
  pub phase : String

pub record ApprovalPolicy : Type 0 where
  pub meta : ObjectMeta
  pub spec : ApprovalPolicySpec
  pub status : PolicyStatus

pub record NamespaceThresholdSpec : Type 0 where
  pub namespace_selector : Option LabelSelector
  pub active_plans_limit : ℤ
  pub pending_approvals_limit : ℤ
  pub default_ttl_seconds : ℤ
  pub default_approval_timeout_seconds : ℤ
  pub protection_level : String
  pub priority : ℤ
  pub enabled : Bool

pub record NamespaceThreshold : Type 0 where
  pub meta : ObjectMeta
  pub spec : NamespaceThresholdSpec
  pub status : PolicyStatus

pub record EscalationCondition : Type 0 where
  pub type : String
  pub threshold : ℤ
  pub severity_min : String
  pub severity_max : String

pub record EscalationAction : Type 0 where
  pub type : String
  pub details : StringMap
  pub enabled : Bool

pub record Assignee : Type 0 where
  pub type : String
  pub name : String
  pub channels : List String
  pub enabled : Bool

pub record EscalationStage : Type 0 where
  pub name : String
  pub delay : ℤ
  pub condition : Option EscalationCondition
  pub actions : List EscalationAction
  pub assignees : List Assignee
  pub notification_template : String
  pub timeout : ℤ

pub record EscalationChainSpec : Type 0 where
  pub resource_selector : Option LabelSelector
  pub priority : ℤ
  pub stages : List EscalationStage
  pub enabled : Bool

pub record EscalationChain : Type 0 where
  pub meta : ObjectMeta
  pub spec : EscalationChainSpec
  pub status : PolicyStatus
