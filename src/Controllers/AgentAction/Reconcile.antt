-- ===== src/Controllers/AgentAction/Reconcile.antt =====
-- `Reconcile` of an AgentAction (internal/controllers/agentaction_controller.go).
pub mod Quiet
pub mod Recorded
pub mod Saved
pub mod Sent
pub mod Dispatch
pub mod Recovery
pub mod Expiry
pub mod Failure
use fluxseer_rca.Base.{
  ℕ, ◌*◌, String, Option, none, some, Bool, true, false, not, ◌&&◌, ◌||◌, ◌==◌, ◌!=◌, ℤ, pos,
  if◌then◌else◌,
}
use fluxseer_rca.Api.Meta.{Time, Key, second, Result, ok, err, Error}
use fluxseer_rca.Api.Action.{
  AgentAction, AgentActionStatus, AgentActionApprovalStatus, AgentActionExecutionStatus,
  AgentActionEffectivenessStatus, EffectivenessBaseline, phase_executing, phase_succeeded,
  phase_failed, phase_rejected, effectiveness_verifying,
}
use fluxseer_rca.Domain.{ExecutionResult, outcome_unknown}
use fluxseer_rca.Executor.Contract.{ExecutorRequest, Baseline}
use fluxseer_rca.Executor.Router
use fluxseer_rca.Executor.Router.{Router, Answer, Executed, is_routed, unrouted}
use fluxseer_rca.Controllers.Flow.{
  Flow, State, Outcome, done, failed, requeue, crashed, pure, leave, query, write, or_fail,
  or_ignore, ◌>>=◌, ◌>>◌, dispatched, outcome_of,
}
use fluxseer_rca.Controllers.Equality.{status_changed}
use fluxseer_rca.Controllers.AgentAction.Env.{Env, now, save, record_phase_transition}
use fluxseer_rca.Controllers.AgentAction.Approval.{is_agent_action_approved, spec_digest_of}
use fluxseer_rca.Controllers.AgentAction.Pending.{reconcile_pending, save_transition}
use fluxseer_rca.Controllers.AgentAction.Execution.{
  request_of, request_for_persisted_action, undispatched_status, started_after, executing_status,
}
use fluxseer_rca.Controllers.AgentAction.Baseline.{
  effectiveness_baseline_from_executor, populate_baseline_evidence, with_baseline,
}
use fluxseer_rca.Controllers.AgentAction.Outcomes.{record_execution_success}
use fluxseer_rca.Controllers.AgentAction.Statuses.{unknown_status, failed_status}
use fluxseer_rca.Controllers.AgentAction.Verification.{reconcile_effectiveness_verification}
use fluxseer_rca.Controllers.AgentAction.Ttl.{reconcile_terminal_state_ttl}

abbrev soon : Outcome
soon = requeue (pos (5 * second))

unfoldable pub is_terminal : String → Bool
is_terminal phase = phase == phase_succeeded || (phase == phase_failed || phase == phase_rejected)

-- The execution's identity is stored: it was, or is about to be, dispatched.
unfoldable pub is_dispatched : String → Option AgentActionExecutionStatus → Bool
is_dispatched phase none = false
is_dispatched phase (some execution) = phase == phase_executing && execution.execution_id != ""

unfoldable pub verifying :
    Option AgentActionEffectivenessStatus → Option AgentActionEffectivenessStatus
verifying none = none
verifying (some e) = if e.phase == effectiveness_verifying then some e else none

module _ {W : Type 0} (env : Env W) where
  -- `failBeforeDispatch`.
  unfoldable pub fail_before_dispatch :
      {A : Type 0} → AgentAction → ExecutorRequest → String → Error → Flow W A
  fail_before_dispatch action request reason e = do
    t ← now env
    save env (record action { status = undispatched_status action request reason e t })
    leave (failed e)

  recovered : AgentAction → ExecutorRequest → Answer ExecutionResult → Flow W Outcome
  recovered action request (err e) = leave (failed e)
  recovered action request (ok none) = pure soon
  recovered action request (ok (some result)) = do
    t ← now env
    record_execution_success env action request result t

  -- A restart or resync asks the backend; it sends no second side effect.
  unfoldable pub recover : AgentAction → Option (Router W) → Flow W Outcome
  unfolding recovered
  recover action none = pure soon
  recover action (some router) =
      let request = request_for_persisted_action action in
      query (fluxseer_rca.Executor.Router.resolve env.quote router request)
      >>= recovered action request

  with_evidence :
      AgentAction
      → ExecutorRequest
      → AgentActionStatus
      → Result EffectivenessBaseline
      → Flow W AgentActionStatus
  unfolding fail_before_dispatch
  with_evidence action request status (ok baseline) = pure (with_baseline baseline status)
  with_evidence action request status (err e) =
      fail_before_dispatch (record action { status = status }) request "BaselineEvidenceUnavailable"
        e

  -- The executing status, with the baseline where one was captured.
  add_baseline :
      AgentAction → ExecutorRequest → AgentActionStatus → Option Baseline → Flow W AgentActionStatus
  unfolding with_evidence
  add_baseline action request status none = pure status
  add_baseline action request status (some baseline) =
      populate_baseline_evidence env (effectiveness_baseline_from_executor baseline action)
      >>= with_evidence action request status

  captured : AgentAction → ExecutorRequest → Answer Baseline → Flow W (Option Baseline)
  unfolding fail_before_dispatch
  captured action request (ok baseline) = pure baseline
  captured action request (err e) = fail_before_dispatch action request "BaselineCaptureFailed" e

  -- The status that is saved before the dispatch.
  unfoldable pub dispatch_status :
      AgentAction
      → AgentActionApprovalStatus
      → ExecutorRequest
      → Router W
      → Flow W AgentActionStatus
  unfolding captured add_baseline
  dispatch_status action approval request router = do
    answer ← query (fluxseer_rca.Executor.Router.capture_baseline env.quote router request)
    baseline ← captured action request answer
    t ← now env
    add_baseline action request
        (executing_status action approval (spec_digest_of env.spec_digest action) request
          (started_after baseline t))
        baseline

  -- The execution is recorded as executing, if this is news, and then sent to the backend.
  unfoldable pub send : ExecutorRequest → Router W → Flow W Executed
  send request router = do
    write (dispatched request)
    query (fluxseer_rca.Executor.Router.execute env.quote router request)

  unfoldable pub failed_dispatch : AgentAction → ExecutionResult → Error → Time → Flow W Outcome
  failed_dispatch action result e t =
      if result.outcome == outcome_unknown
      then save env (record action { status = unknown_status action result.failure_reason e t })
        >> pure soon
      else (save env (record action { status = failed_status action e t }) >>= λ stored.
          record_phase_transition env phase_failed stored.status.phase >> leave (failed e))

  record_dispatch :
      AgentAction → ExecutorRequest → ExecutionResult → Time → Option Error → Flow W Outcome
  unfolding failed_dispatch
  record_dispatch action request result t none =
      record_execution_success env action request result t
  record_dispatch action request result t (some e) = failed_dispatch action result e t

  -- After the dispatch the action is read afresh.
  unfoldable pub after_dispatch : Key → ExecutorRequest → Executed → Flow W Outcome
  unfolding record_dispatch
  after_dispatch key request executed = do
    r ← query (env.get_action key)
    action ← or_ignore r
    t ← now env
    record_dispatch action request executed.result t executed.error

  unfoldable pub execute_approved :
      Key → AgentAction → AgentActionApprovalStatus → Router W → Flow W Outcome
  unfolding dispatch_status send after_dispatch
  execute_approved key action approval router = do
    let request = request_of env.spec_digest env.identity_digest action approval
    status ← dispatch_status action approval request router
    save_transition env action status
    executed ← send request router
    after_dispatch key request executed

  -- A nil router is dereferenced for an action type that has a backend.
  unfoldable pub without_router : AgentAction → AgentActionApprovalStatus → Flow W Outcome
  unfolding fail_before_dispatch
  without_router action approval =
      if is_routed action.spec.action_type
      then leave crashed
      else fail_before_dispatch action
          (request_of env.spec_digest env.identity_digest action approval) "BaselineCaptureFailed"
          (unrouted env.quote action.spec.action_type)

  execute_action :
      Key → AgentAction → Option AgentActionApprovalStatus → Option (Router W) → Flow W Outcome
  unfolding execute_approved without_router
  execute_action key action none router = leave crashed
  execute_action key action (some approval) none = without_router action approval
  execute_action key action (some approval) (some router) =
      execute_approved key action approval router

  -- An action that is neither finished nor dispatched.
  unfoldable pub advance : Key → AgentAction → Flow W Outcome
  unfolding execute_action
  advance key action =
      if is_agent_action_approved env.spec_digest action
      then execute_action key action action.status.approval env.executor
      else (now env >>= reconcile_pending env action)

  unfoldable pub proceed :
      Key → AgentAction → Option AgentActionEffectivenessStatus → Flow W Outcome
  unfolding advance recover
  proceed key action (some effectiveness) =
      now env >>= reconcile_effectiveness_verification env action effectiveness
  proceed key action none =
      if is_terminal action.status.phase
      then (now env >>= reconcile_terminal_state_ttl env action)
      else if is_dispatched action.status.phase action.status.execution
      then recover action env.executor
      else advance key action

  -- `Reconcile`.
  unfoldable pub reconcile : Key → Flow W Outcome
  unfolding proceed verifying
  reconcile key = do
    r ← query (env.get_action key)
    action ← or_ignore r
    proceed key action (verifying action.status.effectiveness)
