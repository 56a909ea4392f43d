-- ===== src/Controllers/AgentAction/Verification/Quiet.antt =====
-- A verification dispatches nothing: it only reads the target.
use fluxseer_rca.Base.{Option, none, some}
use fluxseer_rca.Api.Meta.{Time, Result, ok, err, NamespacedObjectReference}
use fluxseer_rca.Api.Action.{
  AgentAction, AgentActionExecutionStatus, AgentActionEffectivenessStatus, EffectivenessBaseline,
}
use fluxseer_rca.Api.Investigation.{InvestigationRequest}
use fluxseer_rca.Executor.Router.{Router}
use fluxseer_rca.Controllers.Dispatches.{IsQuiet, quiet_rules}
use fluxseer_rca.Controllers.AgentAction.Env.{Env}
use fluxseer_rca.Controllers.AgentAction.Env.Quiet.{save-IsQuiet}
use fluxseer_rca.Controllers.AgentAction.Verification.{
  create_effectiveness_verification, begin_verification, observe, conclude, judge_verification,
  continue_verification, verify, reconcile_effectiveness_verification,
}

module _ {W : Type 0} (env : Env W) (action : AgentAction) where
  create-IsQuiet :
      (execution : AgentActionExecutionStatus) (baseline : EffectivenessBaseline)
      → IsQuiet (create_effectiveness_verification env action execution baseline)
  unfolding create_effectiveness_verification
  create-IsQuiet execution baseline = search quiet_rules

  observe-IsQuiet : (router : Option (Router W)) → IsQuiet (observe env action router)
  unfolding observe
  observe-IsQuiet none = search quiet_rules
  observe-IsQuiet (some router) = search quiet_rules

module _ {W : Type 0} (env : Env W) (action : AgentAction)
    (effectiveness : AgentActionEffectivenessStatus) where
  begin_verification-IsQuiet :
      (execution : AgentActionExecutionStatus) (baseline : EffectivenessBaseline)
      → IsQuiet (begin_verification env action effectiveness execution baseline)
  unfolding begin_verification
  begin_verification-IsQuiet execution baseline = search (quiet_rules, create-IsQuiet, save-IsQuiet)

  conclude-IsQuiet :
      (baseline : EffectivenessBaseline) (verification : InvestigationRequest) (now : Time)
      → IsQuiet (conclude env action effectiveness baseline verification now)
  unfolding conclude
  conclude-IsQuiet baseline verification now = search (quiet_rules, observe-IsQuiet, save-IsQuiet)

  judge_verification-IsQuiet :
      (baseline : EffectivenessBaseline) (now : Time) (r : Result InvestigationRequest)
      → IsQuiet (judge_verification env action effectiveness baseline now r)
  unfolding judge_verification
  judge_verification-IsQuiet baseline now (err e) = search quiet_rules
  judge_verification-IsQuiet baseline now (ok verification) = search (quiet_rules, conclude-IsQuiet)

  continue_verification-IsQuiet :
      (execution : AgentActionExecutionStatus) (baseline : EffectivenessBaseline) (now : Time)
      (reference : Option NamespacedObjectReference)
      → IsQuiet (continue_verification env action effectiveness execution baseline now reference)
  unfolding continue_verification
  continue_verification-IsQuiet execution baseline now none =
      begin_verification-IsQuiet execution baseline
  continue_verification-IsQuiet execution baseline now (some reference) =
      search (quiet_rules, judge_verification-IsQuiet)

  verify-IsQuiet :
      (now : Time) (baseline : Option EffectivenessBaseline)
      (execution : Option AgentActionExecutionStatus)
      → IsQuiet (verify env action effectiveness now baseline execution)
  unfolding verify
  verify-IsQuiet now none execution = search quiet_rules
  verify-IsQuiet now (some baseline) none = search quiet_rules
  verify-IsQuiet now (some baseline) (some execution) =
      search (quiet_rules, continue_verification-IsQuiet)

  pub reconcile_effectiveness_verification-IsQuiet :
      (now : Time) → IsQuiet (reconcile_effectiveness_verification env action effectiveness now)
  unfolding reconcile_effectiveness_verification
  reconcile_effectiveness_verification-IsQuiet now =
      verify-IsQuiet now effectiveness.baseline action.status.execution
