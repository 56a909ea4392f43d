-- ===== src/Controllers/AgentAction/Execution.antt =====
-- The statuses and requests of an execution: `executorRequestForPersistedAction`,
-- `executionFinishedAt`, the status before dispatch, and those of its outcomes.
use fluxseer_rca.Base.{
  String, Option, none, some, true, false, not, pos, if◌then◌else◌, ◌+++◌, trim_space, int32,
}
use fluxseer_rca.Api.Meta.{Time, read, after, add_time, Error, error_text, set_resource_status}
use fluxseer_rca.Api.Action.{
  AgentAction, AgentActionSpec, AgentActionStatus, AgentActionApprovalStatus,
  AgentActionExecutionStatus, phase_executing, phase_failed, effectiveness_not_verified,
}
use fluxseer_rca.Domain.{outcome_failed}
use fluxseer_rca.Executor.Contract.{
  ExecutorRequest, PolicySnapshot, IdentityInput, Baseline, ExecutionIdentity,
  build_execution_identity,
}
use fluxseer_rca.Controllers.AgentAction.Env.{annotation_target_uid, target_to_resource}
use fluxseer_rca.Controllers.AgentAction.Approval.{spec_digest_of}

abbrev pub no_snapshot : PolicySnapshot
no_snapshot = record { reference = ""; version = ""; digest = ""; observed_generation = pos 0 }

unfoldable pub target_uid_of : AgentAction → String
target_uid_of action = trim_space (read action.meta.annotations annotation_target_uid)

-- The identity of the execution of this action, as it is now.
unfoldable pub identity_of :
    (AgentActionSpec → String) → (IdentityInput → String) → AgentAction → ExecutionIdentity
identity_of spec_digest identity_digest action = build_execution_identity identity_digest (record {
  action_ref = action.meta.namespace +++ "/" +++ action.meta.name;
  agent_action_uid = action.meta.uid;
  generation = action.meta.generation;
  action_index = pos 0;
  target = target_to_resource action.spec.target;
  target_uid = target_uid_of action;
  action_digest = spec_digest_of spec_digest action;
  action_type = action.spec.action_type;
  parameters = action.spec.parameters;
})

-- The request of a first dispatch.
unfoldable pub request_of :
    (AgentActionSpec → String)
    → (IdentityInput → String)
    → AgentAction
    → AgentActionApprovalStatus
    → ExecutorRequest
request_of spec_digest identity_digest action approval =
    let identity = identity_of spec_digest identity_digest action in
    record {
      execution_id = identity.execution_id;
      idempotency_key = identity.idempotency_key;
      action_digest = spec_digest_of spec_digest action;
      action_type = action.spec.action_type;
      action_index = pos 0;
      target = target_to_resource action.spec.target;
      target_uid = target_uid_of action;
      parameters = action.spec.parameters;
      approved_policy_snapshot = no_snapshot;
      approved_by = approval.approved_by;
      dry_run_result = action.spec.dry_run_result;
      rollback_plan = action.spec.rollback_plan;
      timeout = pos 0;
      attempt = pos 1;
    }

abbrev from_approval :
    {A : Type 0} → Option AgentActionApprovalStatus → A → (AgentActionApprovalStatus → A) → A
from_approval none a f = a
from_approval (some approval) a f = f approval

abbrev from_execution :
    {A : Type 0} → Option AgentActionExecutionStatus → A → (AgentActionExecutionStatus → A) → A
from_execution none a f = a
from_execution (some execution) a f = f execution

-- `executorRequestForPersistedAction`.
unfoldable pub request_for_persisted_action : AgentAction → ExecutorRequest
request_for_persisted_action action = record {
  execution_id = from_execution action.status.execution "" (λ e. e.execution_id);
  idempotency_key = from_execution action.status.execution "" (λ e. e.idempotency_key);
  action_digest = from_approval action.status.approval "" (λ a. a.action_digest);
  action_type = action.spec.action_type;
  action_index = pos 0;
  target = target_to_resource action.spec.target;
  target_uid = target_uid_of action;
  parameters = action.spec.parameters;
  approved_policy_snapshot = no_snapshot;
  approved_by = from_approval action.status.approval action.spec.approved_by (λ a. a.approved_by);
  dry_run_result = action.spec.dry_run_result;
  rollback_plan = action.spec.rollback_plan;
  timeout = pos 0;
  attempt = from_execution action.status.execution (pos 1) (λ e. e.attempt);
}

-- The time, moved to a nanosecond after the start where it does not lie after it.
abbrev pub not_before : Option Time → Time → Time
not_before none now = now
not_before (some started) now = if not (after now started) then add_time started (pos 1) else now

-- `executionFinishedAt`: later than the start, by a nanosecond at least.
unfoldable pub execution_finished_at : Option AgentActionExecutionStatus → Time → Time
execution_finished_at none now = now
execution_finished_at (some e) now = not_before e.started_at now

-- The status of an action that failed before it was dispatched.
unfoldable pub undispatched_status :
    AgentAction → ExecutorRequest → String → Error → Time → AgentActionStatus
undispatched_status action request reason e now =
    let finished = execution_finished_at action.status.execution now in
    record action.status {
      resource = set_resource_status phase_failed (error_text e) action.meta.generation finished;
      finished_at = some finished;
      execution = some (record {
        phase = "Failed";
        outcome = outcome_failed;
        execution_id = request.execution_id;
        idempotency_key = request.idempotency_key;
        attempt = int32 request.attempt;
        failure_reason = reason;
        executor = "";
        summary = error_text e;
        started_at = none;
        finished_at = some finished;
        external_ref = "";
        retryable = false;
      });
      effectiveness = some (record {
        phase = effectiveness_not_verified;
        outcome = "";
        message =
            "post-action verification was not started because the pre-action baseline could not be captured";
        verification_ref = none;
        baseline = none;
        post_action_health = none;
        started_at = none;
        finished_at = none;
        settling_until = none;
        observation_until = none;
      });
    }

-- The start of the execution lies after the capture of the baseline.
unfoldable pub started_after : Option Baseline → Time → Time
started_after none now = now
started_after (some baseline) now =
    if not (after now baseline.captured_at) then add_time baseline.captured_at (pos 1) else now

-- The approval that is stored with the dispatch: a human's is confirmed by it.
unfoldable pub confirmed_approval :
    AgentAction → AgentActionApprovalStatus → String → Time → AgentActionApprovalStatus
confirmed_approval action approval digest started = record {
  approved = true;
  approved_by = if approval.approved then approval.approved_by else action.spec.approved_by;
  source = if approval.approved then approval.source else "ManualApprovalConfirmed";
  action_digest = digest;
  approved_generation = action.meta.generation;
  approved_at = if approval.approved then approval.approved_at else some started;
  escalated_at = approval.escalated_at;
  decided_at = approval.decided_at;
  decided_by = approval.decided_by;
}

-- The status of an action whose dispatch is due.
unfoldable pub executing_status :
    AgentAction → AgentActionApprovalStatus → String → ExecutorRequest → Time → AgentActionStatus
executing_status action approval digest request started = record action.status {
  resource =
      set_resource_status phase_executing "approved action is executing" action.meta.generation
        started;
  approval = some (confirmed_approval action approval digest started);
  execution = some (record {
    phase = "Executing";
    outcome = "";
    execution_id = request.execution_id;
    idempotency_key = request.idempotency_key;
    attempt = int32 request.attempt;
    failure_reason = "";
    executor = "";
    summary = "";
    started_at = some started;
    finished_at = none;
    external_ref = "";
    retryable = false;
  });
}
