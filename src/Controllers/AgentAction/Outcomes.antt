-- ===== src/Controllers/AgentAction/Outcomes.antt =====
-- `recordExecutionSuccess` (internal/controllers/agentaction_controller.go).
pub mod Quiet
pub mod Order
use fluxseer_rca.Base.{
  String, Option, none, some, Bool, true, false, not, ◌||◌, ◌==◌, ◌*◌, ℤ, pos, ltb_ℤ, if◌then◌else◌,
  int32,
}
use fluxseer_rca.Api.Meta.{
  Time, Duration, is_zero_time, before, add_time, sub_time, second, Error, error_text,
  set_resource_status,
}
use fluxseer_rca.Api.Action.{
  AgentAction, AgentActionStatus, AgentActionExecutionStatus, AgentActionEffectivenessStatus,
  EffectivenessBaseline, phase_executing, phase_failed, phase_succeeded, effectiveness_not_verified,
  effectiveness_verifying,
}
use fluxseer_rca.Domain.{ExecutionResult, outcome_failed, outcome_succeeded, outcome_unknown}
use fluxseer_rca.Executor.Contract.{ExecutorRequest}
use fluxseer_rca.Controllers.Flow.{Flow, Outcome, done, requeue, crashed, pure, leave, ◌>>=◌, ◌>>◌}
use fluxseer_rca.Controllers.AgentAction.Env.{Env, save, record_phase_transition}
use fluxseer_rca.Controllers.AgentAction.Execution.{execution_finished_at, not_before}
use fluxseer_rca.Controllers.AgentAction.Statuses.{
  effectiveness_settling_period, effectiveness_observation_window, no_execution, execution_or_new,
  unknown_status, failed_status, reported_start, recorded_start, start_of, start_after_capture,
  succeeded_execution, succeeded_status, unverified_status, verifying_status, at_least_zero,
}

module _ {W : Type 0} (env : Env W) where
  abbrev save_from : AgentAction → AgentActionStatus → Flow W (Unit {0})
  save_from action status = do
    stored ← save env (record action { status = status })
    record_phase_transition env action.status.phase stored.status.phase

  success_without_baseline : AgentAction → ExecutorRequest → ExecutionResult → Time → Flow W Outcome
  unfolding unverified_status
  success_without_baseline action request result now =
      save_from action (unverified_status action request result now) >> pure done

  success_with_baseline :
      AgentAction
      → ExecutorRequest
      → ExecutionResult
      → Time
      → AgentActionEffectivenessStatus
      → Option Time
      → Flow W Outcome
  unfolding verifying_status at_least_zero
  success_with_baseline action request result now effectiveness none = leave crashed
  success_with_baseline action request result now effectiveness (some captured) =
      save_from action (verifying_status action request result effectiveness captured now)
      >> pure (requeue (at_least_zero (sub_time (add_time now effectiveness_settling_period) now)))

  success_with :
      AgentAction
      → ExecutorRequest
      → ExecutionResult
      → Time
      → AgentActionEffectivenessStatus
      → Option EffectivenessBaseline
      → Flow W Outcome
  unfolding success_without_baseline success_with_baseline
  success_with action request result now effectiveness none =
      success_without_baseline action request result now
  success_with action request result now effectiveness (some baseline) =
      success_with_baseline action request result now effectiveness baseline.captured_at

  record_success :
      AgentAction
      → ExecutorRequest
      → ExecutionResult
      → Time
      → Option AgentActionEffectivenessStatus
      → Flow W Outcome
  unfolding success_with success_without_baseline
  record_success action request result now none = success_without_baseline action request result now
  record_success action request result now (some effectiveness) =
      success_with action request result now effectiveness effectiveness.baseline

  -- `recordExecutionSuccess`.
  unfoldable pub record_execution_success :
      AgentAction → ExecutorRequest → ExecutionResult → Time → Flow W Outcome
  unfolding record_success
  record_execution_success action request result now =
      record_success action request result now action.status.effectiveness
