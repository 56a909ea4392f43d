-- ===== src/Controllers/AgentAction/Outcomes/Quiet.antt =====
-- Recording a success dispatches nothing.
use fluxseer_rca.Base.{Option, none, some}
use fluxseer_rca.Api.Meta.{Time}
use fluxseer_rca.Api.Action.{AgentAction, AgentActionEffectivenessStatus, EffectivenessBaseline}
use fluxseer_rca.Domain.{ExecutionResult}
use fluxseer_rca.Executor.Contract.{ExecutorRequest}
use fluxseer_rca.Controllers.Dispatches.{IsQuiet, quiet_rules}
use fluxseer_rca.Controllers.AgentAction.Env.{Env}
use fluxseer_rca.Controllers.AgentAction.Env.Quiet.{save-IsQuiet, record_phase_transition-IsQuiet}
use fluxseer_rca.Controllers.AgentAction.Outcomes.{
  success_without_baseline, success_with_baseline, success_with, record_success,
  record_execution_success,
}

ruleset saving = (quiet_rules, save-IsQuiet, record_phase_transition-IsQuiet)

module _ {W : Type 0} (env : Env W) (action : AgentAction) (request : ExecutorRequest)
    (result : ExecutionResult) (now : Time) where
  success_without_baseline-IsQuiet :
      IsQuiet (success_without_baseline env action request result now)
  unfolding success_without_baseline
  success_without_baseline-IsQuiet = search saving

  success_with_baseline-IsQuiet :
      (effectiveness : AgentActionEffectivenessStatus) (captured : Option Time)
      → IsQuiet (success_with_baseline env action request result now effectiveness captured)
  unfolding success_with_baseline
  success_with_baseline-IsQuiet effectiveness none = search saving
  success_with_baseline-IsQuiet effectiveness (some captured) = search saving

  success_with-IsQuiet :
      (effectiveness : AgentActionEffectivenessStatus) (baseline : Option EffectivenessBaseline)
      → IsQuiet (success_with env action request result now effectiveness baseline)
  unfolding success_with
  success_with-IsQuiet effectiveness none = success_without_baseline-IsQuiet
  success_with-IsQuiet effectiveness (some baseline) =
      success_with_baseline-IsQuiet effectiveness baseline.captured_at

  record_success-IsQuiet :
      (effectiveness : Option AgentActionEffectivenessStatus)
      → IsQuiet (record_success env action request result now effectiveness)
  unfolding record_success
  record_success-IsQuiet none = success_without_baseline-IsQuiet
  record_success-IsQuiet (some effectiveness) =
      success_with-IsQuiet effectiveness effectiveness.baseline

  pub record_execution_success-IsQuiet :
      IsQuiet (record_execution_success env action request result now)
  unfolding record_execution_success
  record_execution_success-IsQuiet = record_success-IsQuiet action.status.effectiveness
