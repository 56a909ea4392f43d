-- ===== src/Controllers/AgentAction/Inquiry.antt =====
-- The investigation that verifies an execution, and the verdict on it
-- (internal/controllers/agentaction_controller.go).
use fluxseer_rca.Base.{
  ◌-◌, ◌*◌, String, [], ◌∷◌, Option, none, some, Bool, true, false, ℤ, pos, ◌+++◌,
}
use Prim.Native.String.{len}
use fluxseer_rca.Api.Meta.{
  Time, assign, before, sub_time, second, Result, ok, err, error_text, NamespacedObjectReference,
}
use fluxseer_rca.Api.Action.{
  AgentAction, AgentActionExecutionStatus, AgentActionEffectivenessStatus, EffectivenessBaseline,
  effectiveness_completed,
}
use fluxseer_rca.Api.Investigation.{InvestigationRequest}
use fluxseer_rca.Executor.Contract.{HealthSnapshot, trim_prefix, cut}
use fluxseer_rca.Executor.Router.{Answer}
use fluxseer_rca.Guardrails.Resolve.{group_version}
use fluxseer_rca.Controllers.Effectiveness.{
  EffectivenessEvaluation, outcome_inconclusive, evaluate_effectiveness,
}
use fluxseer_rca.Controllers.Flow.{Outcome, done, requeue}
use fluxseer_rca.Controllers.AgentAction.Env.{annotation_target_uid, target_ref_string}
use fluxseer_rca.Controllers.AgentAction.Statuses.{effectiveness_observation_window}
use fluxseer_rca.Controllers.AgentAction.Baseline.{snapshot_to_api}

abbrev pub five_seconds : ℤ
five_seconds = pos (5 * second)

-- `effectivenessVerificationName`, for names in ASCII: at most 63 characters.
unfoldable pub effectiveness_verification_name : String → String → String
effectiveness_verification_name digest name =
    let suffix = cut 16 (trim_prefix digest "sha256:") in
    cut (63 - 8 - len suffix) name +++ "-verify-" +++ suffix

-- What `CreateOrUpdate` makes of the investigation, beside its owner.
unfoldable pub prepare_verification :
    AgentAction
    → AgentActionExecutionStatus
    → EffectivenessBaseline
    → InvestigationRequest
    → InvestigationRequest
prepare_verification action execution baseline v = record v {
  meta = record v.meta {
    labels = assign "fluxseer-rca.aiops.platform/managed-by" "agentaction-controller" v.meta.labels;
    annotations = assign "fluxseer-rca.aiops.platform/investigation-depth" "0" (
        assign annotation_target_uid baseline.target_uid (
          assign "fluxseer-rca.aiops.platform/lineage-source-uid" action.meta.uid (
            assign "fluxseer-rca.aiops.platform/lineage-source-api-version" group_version (
              assign "fluxseer-rca.aiops.platform/lineage-source-kind" "AgentAction" (
                assign "fluxseer-rca.aiops.platform/lineage-source"
                  (action.meta.namespace +++ "/" +++ action.meta.name) v.meta.annotations)))));
  };
  spec = record v.spec {
    target = action.spec.target;
    purpose = "effectivenessVerification";
    correlation = some (record {
      agent_action_ref = record { name = action.meta.name; namespace = action.meta.namespace };
      execution_id = execution.execution_id;
      baseline_digest = baseline.digest;
    });
    lookback = effectiveness_observation_window;
    profile = "effectivenessverification";
    question =
        "Verify whether "
        +++ target_ref_string action.spec.target
        +++ " recovered after execution "
        +++ execution.execution_id;
    queries =
        (record {
          name = "post-action-workload-events";
          datasource_ref = "kubernetes-events";
          query_type = "event";
          query = "";
          query_template = "";
          reasons =
              "BackOff" ∷ "Unhealthy" ∷ "Failed" ∷ "FailedCreate" ∷ "ProgressDeadlineExceeded" ∷ [];
        })
        ∷ [];
    mode = "readOnly";
    create_risk_signal = false;
  };
}

unfoldable pub owned_then :
    (InvestigationRequest → InvestigationRequest)
    → Result InvestigationRequest
    → Result InvestigationRequest
owned_then prepare (ok v) = ok (prepare v)
owned_then prepare (err e) = err e

abbrev pub reference_of : InvestigationRequest → NamespacedObjectReference
reference_of v = record { name = v.meta.name; namespace = v.meta.namespace }

-- The observed health counts where the observation succeeded.
abbrev pub health_of : Answer HealthSnapshot → Option HealthSnapshot
health_of (ok h) = h
health_of (err e) = none

abbrev pub no_health : HealthSnapshot
no_health = record {
  generation = pos 0;
  observed_generation = pos 0;
  desired_replicas = pos 0;
  updated_replicas = pos 0;
  available_replicas = pos 0;
  ready_replicas = pos 0;
  conditions = [];
}

unfoldable pub evaluate_observation :
    EffectivenessBaseline → InvestigationRequest → Answer HealthSnapshot → EffectivenessEvaluation
evaluate_observation baseline verification (ok (some post)) =
    evaluate_effectiveness baseline.health post true (some verification)
evaluate_observation baseline verification (ok none) =
    evaluate_effectiveness baseline.health no_health false (some verification)
evaluate_observation baseline verification (err e) = record {
  outcome = outcome_inconclusive;
  message = "post-action health observation failed: " +++ error_text e;
}

-- What the verdict leaves of the status.
unfoldable pub verified :
    AgentActionEffectivenessStatus
    → EffectivenessEvaluation
    → Option HealthSnapshot
    → Time
    → AgentActionEffectivenessStatus
verified effectiveness evaluation none now = record effectiveness {
  phase = effectiveness_completed;
  outcome = evaluation.outcome;
  message = evaluation.message;
  finished_at = some now;
}
verified effectiveness evaluation (some health) now = record effectiveness {
  phase = effectiveness_completed;
  outcome = evaluation.outcome;
  message = evaluation.message;
  finished_at = some now;
  post_action_health = some (snapshot_to_api health);
}

-- The time lies before the instant, where there is one.
unfoldable pub is_before : Time → Option Time → Bool
is_before now none = false
is_before now (some t) = before now t

unfoldable pub wait_for : Time → Option Time → Outcome
wait_for now none = done
wait_for now (some t) = requeue (sub_time t now)

abbrev pub with_effectiveness : AgentAction → AgentActionEffectivenessStatus → AgentAction
with_effectiveness action e = record action {
  status = record action.status { effectiveness = some e };
}
