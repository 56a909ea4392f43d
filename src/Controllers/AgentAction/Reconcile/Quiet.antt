-- ===== src/Controllers/AgentAction/Reconcile/Quiet.antt =====
-- The parts of the reconciler before and after a dispatch dispatch nothing.
use fluxseer_rca.Base.{String, Option, none, some}
use fluxseer_rca.Api.Meta.{Time, Key, Result, ok, err, Error}
use fluxseer_rca.Api.Action.{
  AgentAction, AgentActionStatus, AgentActionApprovalStatus, EffectivenessBaseline,
}
use fluxseer_rca.Domain.{ExecutionResult}
use fluxseer_rca.Executor.Contract.{ExecutorRequest, Baseline}
use fluxseer_rca.Executor.Router.{Router, Answer, Executed}
use fluxseer_rca.Controllers.Dispatches.{IsQuiet, quiet_rules}
use fluxseer_rca.Controllers.AgentAction.Env.{Env}
use fluxseer_rca.Controllers.AgentAction.Env.Quiet.{save-IsQuiet, record_phase_transition-IsQuiet}
use fluxseer_rca.Controllers.AgentAction.Baseline.Quiet.{populate_baseline_evidence-IsQuiet}
use fluxseer_rca.Controllers.AgentAction.Outcomes.Quiet.{record_execution_success-IsQuiet}
use fluxseer_rca.Controllers.AgentAction.Reconcile.{
  fail_before_dispatch, recovered, recover, with_evidence, add_baseline, captured, dispatch_status,
  failed_dispatch, record_dispatch, after_dispatch, without_router,
}

ruleset saving = (quiet_rules, save-IsQuiet, record_phase_transition-IsQuiet)

module _ {W : Type 0} (env : Env W) where
  fail_before_dispatch-IsQuiet :
      {A : Type 0} (action : AgentAction) (request : ExecutorRequest) (reason : String) (e : Error)
      → IsQuiet (fail_before_dispatch env {A = A} action request reason e)
  unfolding fail_before_dispatch
  fail_before_dispatch-IsQuiet action request reason e = search saving

  recovered-IsQuiet :
      (action : AgentAction) (request : ExecutorRequest) (answer : Answer ExecutionResult)
      → IsQuiet (recovered env action request answer)
  unfolding recovered
  recovered-IsQuiet action request (err e) = search saving
  recovered-IsQuiet action request (ok none) = search saving
  recovered-IsQuiet action request (ok (some result)) =
      search (saving, record_execution_success-IsQuiet)

  pub recover-IsQuiet :
      (action : AgentAction) (router : Option (Router W)) → IsQuiet (recover env action router)
  unfolding recover
  recover-IsQuiet action none = search saving
  recover-IsQuiet action (some router) = search (saving, recovered-IsQuiet)

  pub without_router-IsQuiet :
      (action : AgentAction) (approval : AgentActionApprovalStatus)
      → IsQuiet (without_router env action approval)
  unfolding without_router
  without_router-IsQuiet action approval = search (saving, fail_before_dispatch-IsQuiet)

  with_evidence-IsQuiet :
      (action : AgentAction) (request : ExecutorRequest) (status : AgentActionStatus)
      (r : Result EffectivenessBaseline)
      → IsQuiet (with_evidence env action request status r)
  unfolding with_evidence
  with_evidence-IsQuiet action request status (ok baseline) = search saving
  with_evidence-IsQuiet action request status (err e) =
      search (saving, fail_before_dispatch-IsQuiet)

  add_baseline-IsQuiet :
      (action : AgentAction) (request : ExecutorRequest) (status : AgentActionStatus)
      (baseline : Option Baseline)
      → IsQuiet (add_baseline env action request status baseline)
  unfolding add_baseline
  add_baseline-IsQuiet action request status none = search saving
  add_baseline-IsQuiet action request status (some baseline) =
      search (saving, populate_baseline_evidence-IsQuiet, with_evidence-IsQuiet)

  captured-IsQuiet :
      (action : AgentAction) (request : ExecutorRequest) (answer : Answer Baseline)
      → IsQuiet (captured env action request answer)
  unfolding captured
  captured-IsQuiet action request (ok baseline) = search saving
  captured-IsQuiet action request (err e) = search (saving, fail_before_dispatch-IsQuiet)

  pub dispatch_status-IsQuiet :
      (action : AgentAction) (approval : AgentActionApprovalStatus) (request : ExecutorRequest)
      (router : Router W)
      → IsQuiet (dispatch_status env action approval request router)
  unfolding dispatch_status
  dispatch_status-IsQuiet action approval request router =
      search (saving, captured-IsQuiet, add_baseline-IsQuiet)

  failed_dispatch-IsQuiet :
      (action : AgentAction) (result : ExecutionResult) (e : Error) (t : Time)
      → IsQuiet (failed_dispatch env action result e t)
  unfolding failed_dispatch
  failed_dispatch-IsQuiet action result e t = search saving

  record_dispatch-IsQuiet :
      (action : AgentAction) (request : ExecutorRequest) (result : ExecutionResult) (t : Time)
      (failure : Option Error)
      → IsQuiet (record_dispatch env action request result t failure)
  unfolding record_dispatch
  record_dispatch-IsQuiet action request result t none =
      record_execution_success-IsQuiet env action request result t
  record_dispatch-IsQuiet action request result t (some e) =
      failed_dispatch-IsQuiet action result e t

  pub after_dispatch-IsQuiet :
      (key : Key) (request : ExecutorRequest) (executed : Executed)
      → IsQuiet (after_dispatch env key request executed)
  unfolding after_dispatch
  after_dispatch-IsQuiet key request executed = search (saving, record_dispatch-IsQuiet)
