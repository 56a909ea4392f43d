-- ===== src/Guardrails/Resolve.antt =====
-- `PolicyEngine.Evaluate` and its fallback (internal/guardrails/policy_engine.go).
use fluxseer_rca.Base.{
  String, List, Option, none, some, pos, ◌==◌, if◌then◌else◌, ◌+++◌, Char, itoa,
}
use fluxseer_rca.Api.Meta.{ObjectMeta, Result, ok, err, ◌>>=◌, other, wrap_error, Selects}
use fluxseer_rca.Api.Policy.{ApprovalPolicy}
use fluxseer_rca.Domain.{ApprovalDecision, needs_approval}
use fluxseer_rca.Guardrails.Engine
use fluxseer_rca.Guardrails.Engine.{Policy, ReviewInput}
use fluxseer_rca.Guardrails.Policy.{
  source_crd, source_legacy, PolicyReviewInput, PolicyReference, PolicyEvaluation, PolicyEngine,
  PolicyMatch, evaluate_policy, select_approval_policy,
}

abbrev pub group_version : String
group_version = "aiops.platform/v1alpha1"

-- The resource version, or the generation where there is none.
unfoldable pub version_of : ObjectMeta → String
version_of meta =
    if meta.resource_version == ""
    then "generation-" +++ itoa meta.generation
    else meta.resource_version

unfoldable pub policy_reference : ApprovalPolicy → String → PolicyReference
policy_reference policy level = record {
  api_version = group_version;
  kind = "ApprovalPolicy";
  name = policy.meta.name;
  namespace = policy.meta.namespace;
  uid = policy.meta.uid;
  resource_version = policy.meta.resource_version;
  generation = policy.meta.generation;
  version = version_of policy.meta;
  match_level = level;
  priority = policy.spec.priority;
}

unfoldable pub legacy_decision : (String → String) → Option Policy → ReviewInput → ApprovalDecision
legacy_decision quote none input = record {
  action = needs_approval;
  approved_by = "";
  reason = "no policy engine fallback is configured";
  dry_run_result = "";
}
legacy_decision quote (some policy) input = Engine.evaluate quote policy input

unfoldable pub evaluate_legacy :
    (String → String) → PolicyEngine → PolicyReviewInput → PolicyEvaluation
evaluate_legacy quote engine input = record {
  decision = legacy_decision quote engine.legacy input.review;
  policy = none;
  source = source_legacy;
  approval_timeout_seconds = pos 0;
  escalation = none;
}

module _ (quote : String → String) (beyond : Char → Char) (selects : Selects) where
  -- The evaluation by the policy that was selected, if one was.
  unfoldable pub evaluate_selected :
      PolicyEngine → PolicyReviewInput → Option PolicyMatch → PolicyEvaluation
  evaluate_selected engine input none = evaluate_legacy quote engine input
  evaluate_selected engine input (some matched) =
      let (decision, timeout) = evaluate_policy quote beyond matched.policy input in
      record {
        decision = decision;
        policy = some (policy_reference matched.policy matched.level);
        source = source_crd;
        approval_timeout_seconds = timeout;
        escalation = matched.policy.spec.escalation;
      }

  unfoldable pub evaluate_listed :
      PolicyEngine
      → PolicyReviewInput
      → Option (Result (List ApprovalPolicy))
      → Result PolicyEvaluation
  evaluate_listed engine input none =
      err (other "policy engine requires a Kubernetes reader when enabled")
  evaluate_listed engine input (some (err e)) = err (wrap_error "list ApprovalPolicy resources: " e)
  evaluate_listed engine input (some (ok policies)) = do
    matched ← select_approval_policy selects policies input
    ok (evaluate_selected engine input matched)

  unfoldable pub evaluate : PolicyEngine → PolicyReviewInput → Result PolicyEvaluation
  unfolding evaluate_listed
  evaluate engine input =
      if engine.enabled
      then evaluate_listed engine input engine.reader
      else ok (evaluate_legacy quote engine input)
