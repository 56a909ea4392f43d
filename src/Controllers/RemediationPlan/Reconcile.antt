-- ===== src/Controllers/RemediationPlan/Reconcile.antt =====
-- `Reconcile` of a RemediationPlan (internal/controllers/remediationplan_controller.go).
pub mod Traced
pub mod Decided
use fluxseer_rca.Base.{
  String, List, [], ◌∷◌, Option, none, some, Bool, true, false, ◌==◌, ◌!=◌, pos, if◌then◌else◌,
  ◌+++◌, keep, map,
}
use fluxseer_rca.Api.Meta.{StringMap, Time, Key, key_of, Result, ok, err, other}
use fluxseer_rca.Api.Action.{AgentAction, RemediationPlan, RemediationPlanStatus}
use fluxseer_rca.Domain.{ApprovalAction, auto_approve, needs_approval, reject, ApprovalDecision}
use fluxseer_rca.Guardrails.Engine
use fluxseer_rca.Guardrails.Engine.{Policy, ReviewInput}
use fluxseer_rca.Guardrails.Policy.{
  PolicyEngine, PolicyEvaluation, PolicyReviewInput, source_legacy,
}
use fluxseer_rca.Guardrails.Resolve
use fluxseer_rca.Controllers.Flow.{
  Flow, Outcome, done, failed, pure, leave, query, write, or_fail, or_ignore, ◌>>=◌, ◌>>◌,
  action_applied,
}
use fluxseer_rca.Controllers.Events.{emit_transition}
use fluxseer_rca.Controllers.Equality.{status_changed}
use fluxseer_rca.Controllers.AgentAction.Env.{target_to_resource}
use fluxseer_rca.Controllers.RemediationPlan.Env.{
  Env, now, save_action, save_plan, plan_status_changed,
}
use fluxseer_rca.Controllers.RemediationPlan.Derive.{
  remediation_from_plan, mutate, timeout_of, action_key_of,
}
use fluxseer_rca.Controllers.RemediationPlan.Statuses.{plan_status, decided_status}
use fluxseer_rca.Controllers.RemediationPlan.Admission.{target_namespace, namespace_labels, admit}

unfoldable pub review_input : RemediationPlan → ReviewInput
review_input plan = record {
  resource = target_to_resource plan.spec.target;
  reasoning = record {
    severity = plan.spec.severity;
    remediation = remediation_from_plan plan.spec;
  };
  environment = "";
}

-- Without a policy engine the legacy guardrails decide.
unfoldable pub guardrails_alone :
    (String → String) → Option Policy → RemediationPlan → Result PolicyEvaluation
guardrails_alone quote none plan =
    err (other "remediation plan reconciler requires a guardrails evaluator")
guardrails_alone quote (some policy) plan = ok (record {
  decision = fluxseer_rca.Guardrails.Engine.evaluate quote policy (review_input plan);
  policy = none;
  source = source_legacy;
  approval_timeout_seconds = pos 0;
  escalation = none;
})

unfoldable pub policy_input : RemediationPlan → StringMap → PolicyReviewInput
unfolding review_input
policy_input plan namespace_labels = record {
  review = review_input plan;
  resource_labels = plan.meta.labels;
  namespace_labels = namespace_labels;
}

module _ {W : Type 0} (env : Env W) where
  evaluate_with : RemediationPlan → Option (W → PolicyEngine × W) → Flow W PolicyEvaluation
  unfolding guardrails_alone policy_input
  evaluate_with plan none = or_fail (guardrails_alone env.quote env.guardrails plan)
  evaluate_with plan (some engine_at) = do
    labels ← namespace_labels env (target_namespace plan)
    engine ← query engine_at
    or_fail (
        fluxseer_rca.Guardrails.Resolve.evaluate env.quote env.beyond env.selects engine
          (policy_input plan labels))

  -- `evaluatePolicy`.
  unfoldable pub evaluate_policy : RemediationPlan → Flow W PolicyEvaluation
  unfolding evaluate_with
  evaluate_policy plan = evaluate_with plan env.policy_engine

  -- The AgentAction is created, or updated to what the plan asks for.
  unfoldable pub apply_action : RemediationPlan → PolicyEvaluation → Flow W AgentAction
  apply_action plan evaluation = do
    r ← query (
        env.create_or_update_action (action_key_of plan)
          (mutate env.set_controller_reference plan evaluation (timeout_of plan evaluation)))
    action ← or_fail r
    write (action_applied action)
    pure action

  -- A rejection reads the clock once more, for the finish.
  finish_time : ApprovalAction → Time → Flow W Time
  finish_time auto_approve t = pure t
  finish_time needs_approval t = pure t
  finish_time reject t = now env

  unfoldable pub record_action : AgentAction → PolicyEvaluation → Time → Flow W (Unit {0})
  record_action action evaluation t =
      let status = decided_status env.spec_digest action evaluation t in
      if status_changed action.status status
      then (save_action env (record action { status = status }) >>= λ stored.
          emit_transition env.has_recorder env.quote action.status.phase stored.status.phase)
      else pure tt

  unfoldable pub record_plan : RemediationPlan → RemediationPlanStatus → Flow W (Unit {0})
  record_plan plan status =
      if plan_status_changed env.same_instant plan.status status
      then save_plan env (record plan { status = status })
      else pure tt

  -- The action's status is stored before the plan's.
  unfoldable pub record_decision : RemediationPlan → AgentAction → PolicyEvaluation → Flow W Outcome
  unfolding finish_time record_action record_plan
  record_decision plan action evaluation = do
    t ← now env
    finished ← finish_time evaluation.decision.action t
    recorded ← now env
    record_action action evaluation recorded
    record_plan plan (plan_status plan evaluation.decision t finished)
    pure done

  unfoldable pub decide : RemediationPlan → Flow W Outcome
  unfolding evaluate_policy apply_action record_decision
  decide plan = do
    admitted ← admit env plan
    evaluation ← evaluate_policy admitted
    action ← apply_action admitted evaluation
    record_decision admitted action evaluation

  -- A plan with a phase was decided on.
  unfoldable pub proceed : RemediationPlan → Flow W Outcome
  unfolding decide
  proceed plan = if plan.status.phase != "" then pure done else decide plan

  -- `Reconcile`.
  unfoldable pub reconcile : Key → Flow W Outcome
  unfolding proceed
  reconcile key = do r ← query (env.get_plan key); plan ← or_ignore r; proceed plan

  pending_keys : Result (List RemediationPlan) → List Key
  pending_keys (err e) = []
  pending_keys (ok plans) = map (λ p. key_of p.meta) (keep (λ p. p.status.phase == "") plans)

  -- `mapPendingPolicyPlans`; the plans are those of all namespaces.
  unfoldable pub map_pending_policy_plans : W → List Key × W
  unfolding pending_keys
  map_pending_policy_plans w = let (r, w') = env.list_plans "" w in (pending_keys r, w')
