-- ===== src/Controllers/AgentAction/Statuses.antt =====
-- The statuses that record a dispatch: unknown, failed, succeeded
-- (internal/controllers/agentaction_controller.go).
use fluxseer_rca.Base.{
  String, Option, none, some, false, not, ◌==◌, ◌*◌, pos, ltb_ℤ, if◌then◌else◌, int32,
}
use fluxseer_rca.Api.Meta.{
  Time, Duration, is_zero_time, before, add_time, second, Error, error_text, set_resource_status,
}
use fluxseer_rca.Api.Action.{
  AgentAction, AgentActionStatus, AgentActionExecutionStatus, AgentActionEffectivenessStatus,
  phase_executing, phase_failed, phase_succeeded, effectiveness_not_verified,
  effectiveness_verifying,
}
use fluxseer_rca.Domain.{ExecutionResult, outcome_failed, outcome_succeeded, outcome_unknown}
use fluxseer_rca.Executor.Contract.{ExecutorRequest}
use fluxseer_rca.Controllers.AgentAction.Execution.{execution_finished_at, not_before}

-- 5 minutes, and 2.
abbrev pub effectiveness_settling_period : Duration
effectiveness_settling_period = pos (300 * second)

abbrev pub effectiveness_observation_window : Duration
effectiveness_observation_window = pos (120 * second)

abbrev pub no_execution : AgentActionExecutionStatus
no_execution = record {
  phase = "";
  outcome = "";
  execution_id = "";
  idempotency_key = "";
  attempt = pos 0;
  failure_reason = "";
  executor = "";
  summary = "";
  started_at = none;
  finished_at = none;
  external_ref = "";
  retryable = false;
}

abbrev pub execution_or_new : Option AgentActionExecutionStatus → AgentActionExecutionStatus
execution_or_new none = no_execution
execution_or_new (some execution) = execution

-- The backend did not tell whether it acted: the action stays Executing, to be resolved.
unfoldable pub unknown_status : AgentAction → String → Error → Time → AgentActionStatus
unknown_status action reason e now =
    let finished = execution_finished_at action.status.execution now in
    record action.status {
      resource =
          set_resource_status phase_executing
            "execution outcome is unknown; waiting for backend recovery" action.meta.generation
            finished;
      execution = some (record (execution_or_new action.status.execution) {
        phase = "Unknown";
        outcome = outcome_unknown;
        failure_reason = if reason == "" then error_text e else reason;
        summary = error_text e;
        finished_at = some finished;
        retryable = false;
      });
    }

unfoldable pub failed_status : AgentAction → Error → Time → AgentActionStatus
failed_status action e now =
    let finished = execution_finished_at action.status.execution now in
    record action.status {
      resource = set_resource_status phase_failed (error_text e) action.meta.generation finished;
      finished_at = some finished;
      execution = some (record (execution_or_new action.status.execution) {
        phase = "Failed";
        outcome = outcome_failed;
        failure_reason = error_text e;
        summary = error_text e;
        finished_at = some finished;
        retryable = false;
      });
    }

unfoldable pub reported_start : ExecutionResult → Option Time
reported_start result = if is_zero_time result.started_at then none else some result.started_at

unfoldable pub recorded_start : Option Time → ExecutionResult → Option Time
unfolding reported_start
recorded_start (some started) result = some started
recorded_start none result = reported_start result

-- The start that the controller recorded, else the one that the executor reports.
unfoldable pub start_of : Option AgentActionExecutionStatus → ExecutionResult → Option Time
unfolding recorded_start reported_start
start_of none result = reported_start result
start_of (some execution) result = recorded_start execution.started_at result

-- A start that does not lie after the capture of the baseline moves a second after it.
unfoldable pub start_after_capture : Time → Option Time → Time
start_after_capture captured none = add_time captured (pos second)
start_after_capture captured (some started) =
    if not (before captured started) then add_time captured (pos second) else started

unfoldable pub succeeded_execution :
    ExecutorRequest → ExecutionResult → Option Time → Time → AgentActionExecutionStatus
succeeded_execution request result started now = record {
  phase = "Succeeded";
  outcome = if result.outcome == "" then outcome_succeeded else result.outcome;
  execution_id = if result.execution_id == "" then request.execution_id else result.execution_id;
  idempotency_key = request.idempotency_key;
  attempt = int32 request.attempt;
  failure_reason = result.failure_reason;
  executor = result.executor;
  summary = result.summary;
  started_at = started;
  finished_at = some (not_before started now);
  external_ref = result.external_ref;
  retryable = result.retryable;
}

unfoldable pub succeeded_status :
    AgentAction
    → ExecutorRequest
    → ExecutionResult
    → Option Time
    → Time
    → (Time → AgentActionEffectivenessStatus)
    → AgentActionStatus
unfolding succeeded_execution
succeeded_status action request result started now effectiveness =
    let finished = not_before started now in
    record action.status {
      resource = set_resource_status phase_succeeded result.summary action.meta.generation finished;
      finished_at = some finished;
      execution = some (succeeded_execution request result started now);
      effectiveness = some (effectiveness finished);
    }

-- Without a baseline nothing is verified.
unfoldable pub unverified_status :
    AgentAction → ExecutorRequest → ExecutionResult → Time → AgentActionStatus
unfolding succeeded_status start_of
unverified_status action request result now =
    succeeded_status action request result (start_of action.status.execution result) now
      (λ finished. record {
        phase = effectiveness_not_verified;
        outcome = "";
        message =
            "post-action remediation effectiveness verification is unavailable without a pre-action baseline";
        verification_ref = none;
        baseline = none;
        post_action_health = none;
        started_at = none;
        finished_at = none;
        settling_until = none;
        observation_until = none;
      })

unfoldable pub verifying_status :
    AgentAction
    → ExecutorRequest
    → ExecutionResult
    → AgentActionEffectivenessStatus
    → Time
    → Time
    → AgentActionStatus
unfolding succeeded_status start_of start_after_capture
verifying_status action request result effectiveness captured now =
    succeeded_status action request result
      (some (start_after_capture captured (start_of action.status.execution result))) now
      (λ finished. record effectiveness {
        phase = effectiveness_verifying;
        outcome = "";
        message =
            "execution succeeded; waiting for the target to settle before read-only verification";
        started_at = some finished;
        settling_until = some (add_time now effectiveness_settling_period);
        observation_until = some (add_time now (pos (420 * second)));
      })

unfoldable pub at_least_zero : Duration → Duration
at_least_zero d = if ltb_ℤ d (pos 0) then pos 0 else d
