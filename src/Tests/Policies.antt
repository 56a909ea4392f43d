-- ===== src/Tests/Policies.antt =====
-- The guardrails on concrete inputs.
use fluxseer_rca.Base.{
  ◌≤◌, ◌<◌, String, [], ◌∷◌, none, some, true, false, ◌&&◌, ◌==◌, ◌≡◌, refl, ◌↔◌, ◌⊎◌, pos, Char,
  All, arith, find, sort_stable,
}
use fluxseer_rca.Api.Meta.{Result, ok, err, Selects}
use fluxseer_rca.Api.Policy.{ActionTypeRule, ApprovalPolicy}
use fluxseer_rca.Domain.{auto_approve, needs_approval, reject, severity_high}
use fluxseer_rca.Guardrails.Engine
use fluxseer_rca.Guardrails.Engine.{
  Policy, ReviewInput, contains, severity_rank, auto_approve_max, approval_min,
}
use fluxseer_rca.Guardrails.Policy.{
  PolicyReviewInput, PolicyEngine, PolicyMatch, PolicyEvaluation, policy_severity_rank,
  severity_in_range, evaluate_policy, select_approval_policy, rule_decision, decision_from_rule,
  collect_matches, is_active, match_approval_policy, selector_matches, match_by_namespace,
}
use fluxseer_rca.Guardrails.Resolve.{evaluate, evaluate_listed, evaluate_selected}
use fluxseer_rca.Guardrails.Decisions.{
  evaluate-auto_iff, evaluate_unsafe, IsUnknown, evaluate-IsUnknown,
}
use fluxseer_rca.Guardrails.Rules.{severity_in_range_iff, AutoRule, evaluate_policy_auto}
use fluxseer_rca.Guardrails.Selection.{
  Applies, Covered, Outranked, select_approval_policy-outranks, select_approval_policy-none,
}
use fluxseer_rca.Guardrails.AutoApproval.{Backed, evaluate-Backed}
use fluxseer_rca.Tests.Worlds.{plain, named_object}

abbrev guardrails : Policy
guardrails = record {
  allowed_action_types = "kubernetes.rolloutRestart" ∷ [];
  protected_namespaces = "kube-system" ∷ [];
  auto_approve_max_severity = "";
  require_approval_at_or_above = "";
}

abbrev review : String → ReviewInput
review severity = record {
  resource = record {
    cluster = "";
    namespace = "shop";
    kind = "Deployment";
    name = "web";
    api_version = "apps/v1";
    service = "";
  };
  reasoning = record {
    severity = severity;
    remediation = record {
      action_type = "kubernetes.rolloutRestart";
      description = "";
      parameters = [];
      rollback_plan = [];
    };
  };
  environment = "";
}

abbrev same_char : Char → Char
same_char c = c

abbrev all : Selects
all = λ selector labels. ok true

abbrev restart_rule : ActionTypeRule
restart_rule = record { action_type = "kubernetes.rolloutRestart"; action = "auto"; reason = "" }

abbrev auto_policy : ApprovalPolicy
auto_policy = record {
  meta = named_object "shop" "auto" "uid-policy" [];
  spec = record {
    scope = "Cluster";
    resource_selector = none;
    namespace_selector = none;
    action_type_rules = restart_rule ∷ [];
    severity_rules = [];
    default_approval_timeout = pos 0;
    escalation = none;
    priority = pos 1;
    enabled = true;
  };
  status = record { phase = "Active" };
}

abbrev disabled : ApprovalPolicy
disabled = record auto_policy { spec = record auto_policy.spec { enabled = false } }

abbrev question : PolicyReviewInput
question = record { review = review "high"; resource_labels = []; namespace_labels = [] }

abbrev engine : PolicyEngine
engine = record { reader = some (ok (auto_policy ∷ [])); legacy = some guardrails; enabled = true }

evaluate-auto_iff_example :
    ((Engine.evaluate plain guardrails (review "low")).action ≡ auto_approve) ↔ (
      (contains guardrails.allowed_action_types "kubernetes.rolloutRestart" ≡ true)
      × ((contains guardrails.protected_namespaces "shop"
            && (review "low").reasoning.severity == severity_high)
          ≡ false)
      × (severity_rank (review "low").reasoning.severity
          ≤ severity_rank (auto_approve_max guardrails)))
evaluate-auto_iff_example = evaluate-auto_iff plain guardrails (review "low")

limit_known : severity_rank (auto_approve_max guardrails) < 4
unfolding severity_rank auto_approve_max
limit_known = omega arith

evaluate_unsafe_example : (Engine.evaluate plain guardrails (review "unsafe")).action ≡ reject
evaluate_unsafe_example = evaluate_unsafe plain guardrails (review "unsafe") limit_known refl

evaluate-IsUnknown_example :
    (((Engine.evaluate plain guardrails (review "critical")).action ≡ needs_approval)
      × ¬ IsUnknown (auto_approve_max guardrails))
    ⊎ (((Engine.evaluate plain guardrails (review "critical")).action ≡ auto_approve)
        × IsUnknown (auto_approve_max guardrails))
evaluate-IsUnknown_example =
    evaluate-IsUnknown plain guardrails (review "critical") refl (refl, refl, refl, refl)

severity_in_range_iff_example : (severity_in_range same_char "High" "low" "" ≡ true) ↔ (
    (0 < policy_severity_rank same_char "High")
    × ((("low" == "") ≡ true)
        ⊎ (0 < policy_severity_rank same_char "low")
          × (policy_severity_rank same_char "low" ≤ policy_severity_rank same_char "High"))
    × ((("" == "") ≡ true)
        ⊎ (0 < policy_severity_rank same_char "")
          × (policy_severity_rank same_char "High" ≤ policy_severity_rank same_char "")))
severity_in_range_iff_example = severity_in_range_iff same_char "High" "low" ""

rule_approves : (evaluate_policy plain same_char auto_policy question).0.action ≡ auto_approve
unfolding evaluate_policy rule_decision decision_from_rule find
rule_approves = refl

evaluate_policy_auto_example : AutoRule same_char auto_policy question
evaluate_policy_auto_example =
    evaluate_policy_auto plain same_char auto_policy question rule_approves

abbrev matched : PolicyMatch
matched = record { policy = auto_policy; level = "Cluster"; rank = 1 }

selected : select_approval_policy all (auto_policy ∷ []) question ≡ ok (some matched)
unfolding select_approval_policy collect_matches is_active match_approval_policy selector_matches
    match_by_namespace sort_stable
selected = refl

select_approval_policy-outranks_example :
    Applies all question (auto_policy ∷ []) matched
    × All (Covered all question (Outranked all question matched)) (auto_policy ∷ [])
select_approval_policy-outranks_example =
    select_approval_policy-outranks all question (auto_policy ∷ []) matched selected

none_selected : select_approval_policy all (disabled ∷ []) question ≡ ok none
unfolding select_approval_policy collect_matches is_active sort_stable
none_selected = refl

select_approval_policy-none_example : All (Covered all question (λ b. ⊥)) (disabled ∷ [])
select_approval_policy-none_example =
    select_approval_policy-none all question (disabled ∷ []) none_selected

abbrev taken : Result PolicyEvaluation → PolicyEvaluation
taken (ok ev) = ev
taken (err e) = record {
  decision = record { action = reject; approved_by = ""; reason = ""; dry_run_result = "" };
  policy = none;
  source = "";
  approval_timeout_seconds = pos 0;
  escalation = none;
}

abbrev evaluation : PolicyEvaluation
evaluation = taken (evaluate plain same_char all engine question)

evaluation_taken : evaluate plain same_char all engine question ≡ ok evaluation
unfolding evaluate evaluate_listed evaluate_selected select_approval_policy collect_matches
    is_active match_approval_policy selector_matches match_by_namespace sort_stable evaluate_policy
evaluation_taken = refl

evaluation_approves : evaluation.decision.action ≡ auto_approve
unfolding evaluate evaluate_listed evaluate_selected select_approval_policy collect_matches
    is_active match_approval_policy selector_matches match_by_namespace sort_stable evaluate_policy
    rule_decision decision_from_rule find
evaluation_approves = refl

evaluate-Backed_example : Backed plain same_char all engine question evaluation
evaluate-Backed_example =
    evaluate-Backed plain same_char all engine question evaluation evaluation_taken
      evaluation_approves
