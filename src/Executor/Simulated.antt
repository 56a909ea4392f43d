-- ===== src/Executor/Simulated.antt =====
-- The executors that only report: `GitOpsExecutor` and `RunbookExecutor`
-- (internal/executor/router.go). They have none of the router's optional interfaces.
use fluxseer_rca.Base.{String, [], ◌∷◌, none, false, ◌+++◌}
use fluxseer_rca.Api.Meta.{StringMap, Time}
use fluxseer_rca.Domain.{outcome_succeeded}
use fluxseer_rca.Executor.Contract.{ExecutorRequest}
use fluxseer_rca.Executor.Router.{Executed, Backend}

module _ {W : Type 0} (clock : W → Time × W) where
  -- The clock is read for the start and for the finish.
  unfoldable pub simulated : String → String → StringMap → ExecutorRequest → W → Executed × W
  simulated name summary outputs action w =
      let (started, w₁) = clock w in
      let (finished, w₂) = clock w₁ in
      (
        record {
          result = record {
            execution_id = action.execution_id;
            outcome = outcome_succeeded;
            failure_reason = "";
            started_at = started;
            finished_at = finished;
            external_ref = "";
            retryable = false;
            executor = name;
            status = "succeeded";
            summary = summary;
            outputs = outputs;
          };
          error = none;
        },
        w₂,
      )

  unfoldable pub gitops_backend : Backend W
  unfolding simulated
  gitops_backend = record {
    name = "gitops-executor";
    execute = λ action.
        simulated "gitops-executor" ("Simulated GitOps change for " +++ action.target.name)
          (("branch", "github.com/FluxSeer/fluxseer-rca/remediation")
            ∷ ("actionType", action.action_type)
            ∷ [])
          action;
    resolver = none;
    capturer = none;
    observer = none;
  }

  unfoldable pub runbook_backend : Backend W
  unfolding simulated
  runbook_backend = record {
    name = "runbook-executor";
    execute = λ action.
        simulated "runbook-executor" ("Simulated runbook execution for " +++ action.target.service)
          (("workflow", "incident-stabilization") ∷ ("actionType", action.action_type) ∷ []) action;
    resolver = none;
    capturer = none;
    observer = none;
  }
