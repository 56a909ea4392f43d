-- ===== src/Executor/Kubernetes.antt =====
-- `KubernetesExecutor`: the restart of a Deployment, recorded in two annotations of its pod template
-- (internal/executor/router.go). The API server is a parameter.
use fluxseer_rca.Base.{
  String, List, [], ◌∷◌, Option, none, some, Bool, true, false, ◌&&◌, ◌||◌, ◌==◌, ◌!=◌, ℤ, pos,
  if◌then◌else◌, ◌+++◌,
}
use fluxseer_rca.Api.Meta.{
  StringMap, read, assign, Time, Key, ObjectMeta, Result, Error, other, error_text, canceled,
  deadline_exceeded,
}
use fluxseer_rca.Domain.{ResourceRef, ExecutionResult, outcome_succeeded}
use fluxseer_rca.Executor.Contract.{ExecutorRequest, HealthCondition, HealthSnapshot}

-- The fields of an `appsv1.Deployment` that the executor reads and writes.
pub record Deployment : Type 0 where
  pub meta : ObjectMeta
  pub template_annotations : StringMap
  pub replicas : Option ℤ
  pub observed_generation : ℤ
  pub updated_replicas : ℤ
  pub available_replicas : ℤ
  pub ready_replicas : ℤ
  pub conditions : List HealthCondition

-- What the executor uses of the world. `patch` answers the deployment that the server stored.
pub record KubernetesClient (W : Type 0) : Type 0 where
  pub get_deployment : Key → W → Result Deployment × W
  pub patch_deployment : Deployment → W → Result Deployment × W
  pub clock : W → Time × W
  pub baseline_digest : ResourceRef → String → HealthSnapshot → String

abbrev pub rollout_restart_action : String
rollout_restart_action = "kubernetes.rolloutRestart"

abbrev pub restarted_by_annotation : String
restarted_by_annotation = "fluxseer.io/restarted-by"

abbrev pub execution_id_annotation : String
execution_id_annotation = "fluxseer.io/execution-id"

abbrev executor_name : String
executor_name = "kubernetes-executor"

-- `none` for a valid request, else the text of the error.
unfoldable pub validate_restart_request : (String → String) → ExecutorRequest → Option Error
validate_restart_request quote action =
    if action.action_type != rollout_restart_action
    then some (other ("unsupported Kubernetes action type " +++ quote action.action_type))
    else if action.target.kind != "Deployment"
    then some
        (other ("rollout restart requires Deployment target, got " +++ quote action.target.kind))
    else if action.target.api_version != "" && action.target.api_version != "apps/v1"
    then some (
        other ("rollout restart requires apps/v1 target, got " +++ quote action.target.api_version))
    else if action.target.namespace == "" || action.target.name == ""
    then some (other "rollout restart requires namespace and name")
    else if action.target_uid == ""
    then some (other "rollout restart requires target UID")
    else if action.execution_id == "" || action.idempotency_key == ""
    then some (other "rollout restart requires execution and idempotency identity")
    else none

unfoldable pub success_result :
    ExecutorRequest → Time → Time → Deployment → String → ExecutionResult
success_result action started finished deployment summary = record {
  execution_id = action.execution_id;
  outcome = outcome_succeeded;
  failure_reason = "";
  started_at = started;
  finished_at = finished;
  external_ref =
      "apps/v1/Deployment/" +++ deployment.meta.namespace +++ "/" +++ deployment.meta.name;
  retryable = false;
  executor = executor_name;
  status = "succeeded";
  summary = summary;
  outputs =
      ("target", deployment.meta.name)
      ∷ ("targetUID", deployment.meta.uid)
      ∷ ("executionID", action.execution_id)
      ∷ [];
}

unfoldable pub failure_result :
    ExecutorRequest → Time → Time → String → String → Error → ExecutionResult
failure_result action started finished reason outcome e = record {
  execution_id = action.execution_id;
  outcome = outcome;
  failure_reason = reason;
  started_at = started;
  finished_at = finished;
  external_ref = "";
  retryable = false;
  executor = executor_name;
  status = "failed";
  summary = error_text e;
  outputs = [];
}

unfoldable pub simulated_result : ExecutorRequest → Time → Time → ExecutionResult
simulated_result action started finished = record {
  execution_id = action.execution_id;
  outcome = outcome_succeeded;
  failure_reason = "";
  started_at = started;
  finished_at = finished;
  external_ref = "";
  retryable = false;
  executor = executor_name;
  status = "succeeded";
  summary =
      "Simulated " +++ action.action_type +++ " on " +++ action.target.namespace +++ "/"
      +++ action.target.name +++ " approved by " +++ action.approved_by;
  outputs = ("target", action.target.name) ∷ ("dryRun", action.dry_run_result) ∷ [];
}

abbrev pub target_key : ExecutorRequest → Key
target_key action = record { namespace = action.target.namespace; name = action.target.name }

-- The deployment with the restart recorded on its template.
unfoldable pub annotate : ExecutorRequest → Deployment → Deployment
annotate action d = record d {
  template_annotations =
      assign execution_id_annotation action.execution_id
        (assign restarted_by_annotation "fluxseer-rca" d.template_annotations);
}

-- The template carries this execution's identity already. (A missing annotation reads as "".)
unfoldable pub is_recorded : ExecutorRequest → Deployment → Bool
is_recorded action d = read d.template_annotations execution_id_annotation == action.execution_id

-- A call that was cut off after it was sent may have taken effect.
unfoldable pub is_cut_off : Error → Bool
is_cut_off (canceled s) = true
is_cut_off (deadline_exceeded s) = true
is_cut_off _ = false

unfoldable pub health_snapshot : Deployment → HealthSnapshot
health_snapshot d = record {
  generation = d.meta.generation;
  observed_generation = d.observed_generation;
  desired_replicas = elim d.replicas [ none ↦ pos 1 | some n ↦ n ];
  updated_replicas = d.updated_replicas;
  available_replicas = d.available_replicas;
  ready_replicas = d.ready_replicas;
  conditions = d.conditions;
}
