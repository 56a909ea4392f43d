-- ===== src/Guardrails/Policy.antt =====
-- The resolution of ApprovalPolicy resources (internal/guardrails/policy_engine.go).
use fluxseer_rca.Base.{
  ℕ, String, List, [], ◌∷◌, Option, none, some, is_none, Bool, true, false, not, ◌&&◌, ◌||◌, ◌==◌,
  ◌!=◌, ℤ, pos, ltb_ℤ, ltb, eqb, if◌then◌else◌, ◌+++◌, Char, trim_space, to_lower, first, find,
  sort_stable, descending, ascending_text,
}
use fluxseer_rca.Api.Meta.{
  StringMap, LabelSelector, Result, ok, err, ◌>>=◌, Error, wrap_error, Selects,
}
use fluxseer_rca.Api.Policy.{ActionTypeRule, SeverityRule, ApprovalPolicy, EscalationConfig}
use fluxseer_rca.Domain.{ApprovalDecision, auto_approve, needs_approval, reject}
use fluxseer_rca.Guardrails.Engine.{Policy, ReviewInput, policy_engine_actor}

abbrev pub match_resource : String
match_resource = "Resource"

abbrev pub match_namespace : String
match_namespace = "Namespace"

abbrev pub match_cluster : String
match_cluster = "Cluster"

abbrev pub source_crd : String
source_crd = "ApprovalPolicy"

abbrev pub source_legacy : String
source_legacy = "LegacyGuardrails"

abbrev pub scope_cluster : String
scope_cluster = "Cluster"

pub record PolicyReviewInput : Type 0 where
  pub review : ReviewInput
  pub open review use *
  pub resource_labels : StringMap
  pub namespace_labels : StringMap

pub record PolicyReference : Type 0 where
  pub api_version : String
  pub kind : String
  pub name : String
  pub namespace : String
  pub uid : String
  pub resource_version : String
  pub generation : ℤ
  pub version : String
  pub match_level : String
  pub priority : ℤ

pub record PolicyEvaluation : Type 0 where
  pub decision : ApprovalDecision
  pub policy : Option PolicyReference
  pub source : String
  pub approval_timeout_seconds : ℤ
  pub escalation : Option EscalationConfig

-- `reader` is what listing the policies answers, `none` for a nil reader.
pub record PolicyEngine : Type 0 where
  pub reader : Option (Result (List ApprovalPolicy))
  pub legacy : Option Policy
  pub enabled : Bool

pub record PolicyMatch : Type 0 where
  pub policy : ApprovalPolicy
  pub level : String
  pub rank : ℕ

-- `strings.ToLower(strings.TrimSpace(value))`.
unfoldable pub normalize_severity : (Char → Char) → String → String
normalize_severity beyond value = to_lower beyond (trim_space value)

unfoldable pub rank_of : String → ℕ
rank_of s =
    if s == "info"
    then 1
    else if s == "low"
    then 2
    else if s == "medium"
    then 3
    else if s == "high"
    then 4
    else if s == "critical"
    then 5
    else 0

unfoldable pub policy_severity_rank : (Char → Char) → String → ℕ
policy_severity_rank beyond value = rank_of (normalize_severity beyond value)

unfoldable pub severity_in_range : (Char → Char) → String → String → String → Bool
severity_in_range beyond value minimum maximum =
    let rank = policy_severity_rank beyond value in
    let low = policy_severity_rank beyond minimum in
    let high = policy_severity_rank beyond maximum in
    if eqb rank 0
    then false
    else if minimum != "" && (eqb low 0 || ltb rank low)
    then false
    else if maximum != "" && (eqb high 0 || ltb high rank)
    then false
    else true

abbrev or_reason : String → String → String
or_reason reason fallback = if reason == "" then fallback else reason

unfoldable pub decision_from_rule : (String → String) → String → String → String → ApprovalDecision
decision_from_rule quote action reason fallback_reason =
    let shown = or_reason reason fallback_reason in
    if action == "auto"
    then record {
      action = auto_approve;
      approved_by = policy_engine_actor;
      reason = shown;
      dry_run_result = "dry-run: policy approved for execution";
    }
    else if action == "reject"
    then record { action = reject; approved_by = ""; reason = shown; dry_run_result = "" }
    else if action == "manual" || action == ""
    then record {
      action = needs_approval;
      approved_by = "";
      reason = shown;
      dry_run_result = "dry-run: policy requires human approval";
    }
    else record {
      action = reject;
      approved_by = "";
      reason = "unsupported ApprovalPolicy action " +++ quote action;
      dry_run_result = "";
    }

abbrev pub fits_action : String → ActionTypeRule → Bool
fits_action action_type rule = rule.action_type == action_type

abbrev pub fits_severity : (Char → Char) → String → SeverityRule → Bool
fits_severity beyond severity rule =
    severity_in_range beyond severity rule.min_severity rule.max_severity

abbrev unruled : ApprovalDecision
unruled = record {
  action = needs_approval;
  approved_by = "";
  reason = "matching ApprovalPolicy has no rule for this action or severity";
  dry_run_result = "dry-run: policy match requires explicit review";
}

-- The decision by the first rule for the action's type, else by the first for the severity.
unfoldable pub rule_decision :
    (String → String) → ℤ → Option ActionTypeRule → Option SeverityRule → ApprovalDecision × ℤ
rule_decision quote timeout (some rule) s =
    (decision_from_rule quote rule.action rule.reason "action type policy rule", timeout)
rule_decision quote timeout none (some rule) = (
  decision_from_rule quote rule.action rule.reason "severity policy rule",
  if ltb_ℤ (pos 0) rule.timeout_sec then rule.timeout_sec else timeout,
)
rule_decision quote timeout none none = (unruled, timeout)

unfoldable pub evaluate_policy :
    (String → String) → (Char → Char) → ApprovalPolicy → PolicyReviewInput → ApprovalDecision × ℤ
unfolding rule_decision
evaluate_policy quote beyond policy input =
    rule_decision quote policy.spec.default_approval_timeout
      (find (fits_action input.reasoning.remediation.action_type) policy.spec.action_type_rules)
      (find (fits_severity beyond (normalize_severity beyond input.reasoning.severity))
        policy.spec.severity_rules)

-- The part after the match by resource.
unfoldable pub match_by_namespace : ApprovalPolicy → PolicyReviewInput → Bool → Option (String × ℕ)
match_by_namespace policy input namespace_match =
    let own = policy.meta.namespace == input.resource.namespace in
    let unselected = is_none policy.spec.namespace_selector in
    let clustered = policy.spec.scope == scope_cluster in
    if (not clustered && (unselected && own)) || namespace_match
    then some (match_namespace, 2)
    else if clustered
    then some (match_cluster, 1)
    else none

-- Not skipped by the loop: enabled, and neither invalid nor disabled.
unfoldable pub is_active : ApprovalPolicy → Bool
is_active policy =
    policy.spec.enabled && (policy.status.phase != "Invalid" && policy.status.phase != "Disabled")

abbrev pub add_match : ApprovalPolicy → Option (String × ℕ) → List PolicyMatch → List PolicyMatch
add_match policy none matches = matches
add_match policy (some (level, rank)) matches =
    record { policy = policy; level = level; rank = rank } ∷ matches

abbrev pub match_failed : ApprovalPolicy → Error → Error
match_failed policy e =
    wrap_error
      ("match ApprovalPolicy " +++ policy.meta.namespace +++ "/" +++ policy.meta.name +++ ": ") e

abbrev pub within : ApprovalPolicy → Result (Option (String × ℕ)) → Result (Option (String × ℕ))
within policy (ok m) = ok m
within policy (err e) = err (match_failed policy e)

abbrev pub add_matched :
    ApprovalPolicy
    → Result (Option (String × ℕ))
    → Result (List PolicyMatch)
    → Result (List PolicyMatch)
add_matched policy m rest = do
  matched ← within policy m
  matches ← rest
  ok (add_match policy matched matches)

abbrev pub qualified_name : PolicyMatch → String
qualified_name m = m.policy.meta.namespace +++ "/" +++ m.policy.meta.name

unfoldable pub precedes : PolicyMatch → PolicyMatch → Bool
precedes =
    descending (λ m. pos m.rank)
      (descending (λ m. m.policy.spec.priority) (ascending_text qualified_name))

module _ (selects : Selects) where
  -- A selector that is not given does not apply.
  unfoldable pub selector_matches : Option LabelSelector → StringMap → Result Bool
  selector_matches none values = ok false
  selector_matches (some selector) values = selects selector values

  unfoldable pub match_approval_policy :
      ApprovalPolicy → PolicyReviewInput → Result (Option (String × ℕ))
  unfolding match_by_namespace
  match_approval_policy policy input = do
    resource_match ← selector_matches policy.spec.resource_selector input.resource_labels
    namespace_match ← selector_matches policy.spec.namespace_selector input.namespace_labels
    ok (
        if resource_match
          && (policy.spec.scope == scope_cluster
              || (policy.meta.namespace == input.resource.namespace || namespace_match))
        then some (match_resource, 3)
        else match_by_namespace policy input namespace_match)

  unfoldable pub collect_matches :
      List ApprovalPolicy → PolicyReviewInput → Result (List PolicyMatch)
  collect_matches [] input = ok []
  collect_matches (policy ∷ policies) input =
      let rest = collect_matches policies input in
      if is_active policy
      then add_matched policy (match_approval_policy policy input) rest
      else rest

  unfoldable pub select_approval_policy :
      List ApprovalPolicy → PolicyReviewInput → Result (Option PolicyMatch)
  select_approval_policy policies input = do
    matches ← collect_matches policies input
    ok (first (sort_stable precedes matches))
