-- ===== src/Controllers/AgentAction/Verification.antt =====
-- `reconcileEffectivenessVerification`: the read-only investigation after an execution, and the
-- verdict on it (internal/controllers/agentaction_controller.go).
pub mod Quiet
use fluxseer_rca.Base.{
  ℕ, ◌-◌, ◌*◌, String, List, [], ◌∷◌, Option, none, some, is_none, is_some, Bool, true, false, not,
  ◌&&◌, ◌||◌, ◌==◌, ◌!=◌, ℤ, pos, if◌then◌else◌, ◌+++◌,
}
use Prim.Native.String.{len}
use fluxseer_rca.Api.Meta.{
  StringMap, Time, assign, before, sub_time, second, Result, ok, err, Error, other, is_not_found,
  error_text, NamespacedObjectReference,
}
use fluxseer_rca.Api.Action.{
  AgentAction, AgentActionStatus, AgentActionExecutionStatus, AgentActionEffectivenessStatus,
  EffectivenessBaseline, phase_completed, phase_failed, effectiveness_completed,
}
use fluxseer_rca.Api.Investigation.{
  InvestigationRequest, InvestigationRequestSpec, InvestigationCorrelation, InvestigationQuery,
}
use fluxseer_rca.Domain.{outcome_succeeded}
use fluxseer_rca.Executor.Contract.{HealthSnapshot, trim_prefix, cut}
use fluxseer_rca.Executor.Router
use fluxseer_rca.Executor.Router.{Router, Answer, is_routed, unrouted}
use fluxseer_rca.Guardrails.Resolve.{group_version}
use fluxseer_rca.Controllers.Effectiveness.{
  EffectivenessEvaluation, outcome_inconclusive, evaluate_effectiveness,
}
use fluxseer_rca.Controllers.Flow.{
  Flow, Outcome, done, failed, requeue, crashed, pure, leave, query, write, or_fail, ◌>>=◌, ◌>>◌,
  verification_created,
}
use fluxseer_rca.Controllers.AgentAction.Env.{Env, annotation_target_uid, target_ref_string, save}
use fluxseer_rca.Controllers.AgentAction.Execution.{request_for_persisted_action}
use fluxseer_rca.Controllers.AgentAction.Statuses.{effectiveness_observation_window}
use fluxseer_rca.Controllers.AgentAction.Baseline.{snapshot_to_api}
use fluxseer_rca.Controllers.AgentAction.Inquiry.{
  five_seconds, effectiveness_verification_name, prepare_verification, owned_then, reference_of,
  health_of, no_health, evaluate_observation, verified, is_before, wait_for, with_effectiveness,
}

module _ {W : Type 0} (env : Env W) where
  -- `createEffectivenessVerification`.
  unfoldable pub create_effectiveness_verification :
      AgentAction → AgentActionExecutionStatus → EffectivenessBaseline → Flow W InvestigationRequest
  unfolding owned_then effectiveness_verification_name prepare_verification
  create_effectiveness_verification action execution baseline =
      if not env.has_scheme
      then leave (
          failed (
            other
              "AgentAction reconciler requires a scheme to create verification InvestigationRequest"))
      else query (
          env.create_or_update
            (record {
              namespace = action.meta.namespace;
              name =
                  effectiveness_verification_name
                    (env.verification_digest action.meta.uid execution.execution_id)
                    action.meta.name;
            })
            (λ v.
              owned_then (prepare_verification action execution baseline)
                (env.set_controller_reference action v)))
        >>= or_fail

  begin_verification :
      AgentAction
      → AgentActionEffectivenessStatus
      → AgentActionExecutionStatus
      → EffectivenessBaseline
      → Flow W Outcome
  unfolding create_effectiveness_verification
  begin_verification action effectiveness execution baseline = do
    verification ← create_effectiveness_verification action execution baseline
    let reference = reference_of verification
    write (verification_created reference)
    save env (
        with_effectiveness action (record effectiveness {
          verification_ref = some reference;
          message =
              "read-only verification investigation created; waiting for post-action evidence";
        }))
    pure (requeue five_seconds)

  -- A nil router is dereferenced for an action type that has a backend.
  observe : AgentAction → Option (Router W) → Flow W (Answer HealthSnapshot)
  observe action none =
      if is_routed action.spec.action_type
      then leave crashed
      else pure (err (unrouted env.quote action.spec.action_type))
  observe action (some router) = query (
      fluxseer_rca.Executor.Router.observe_health env.quote router
        (request_for_persisted_action action))

  conclude :
      AgentAction
      → AgentActionEffectivenessStatus
      → EffectivenessBaseline
      → InvestigationRequest
      → Time
      → Flow W Outcome
  unfolding observe evaluate_observation verified
  conclude action effectiveness baseline verification now = do
    health ← observe action env.executor
    save env (
        with_effectiveness action (
          verified effectiveness (evaluate_observation baseline verification health)
            (health_of health) now))
    pure done

  -- The investigation must have finished.
  judge_verification :
      AgentAction
      → AgentActionEffectivenessStatus
      → EffectivenessBaseline
      → Time
      → Result InvestigationRequest
      → Flow W Outcome
  unfolding conclude
  judge_verification action effectiveness baseline now (err e) =
      if is_not_found e then pure (requeue five_seconds) else leave (failed e)
  judge_verification action effectiveness baseline now (ok verification) =
      if verification.phase != phase_completed && verification.phase != phase_failed
      then pure (requeue five_seconds)
      else conclude action effectiveness baseline verification now

  continue_verification :
      AgentAction
      → AgentActionEffectivenessStatus
      → AgentActionExecutionStatus
      → EffectivenessBaseline
      → Time
      → Option NamespacedObjectReference
      → Flow W Outcome
  unfolding begin_verification judge_verification is_before wait_for
  continue_verification action effectiveness execution baseline now none =
      begin_verification action effectiveness execution baseline
  continue_verification action effectiveness execution baseline now (some reference) =
      if is_before now effectiveness.observation_until
      then pure (wait_for now effectiveness.observation_until)
      else query (
          env.get_investigation (record { namespace = reference.namespace; name = reference.name }))
        >>= judge_verification action effectiveness baseline now

  verify :
      AgentAction
      → AgentActionEffectivenessStatus
      → Time
      → Option EffectivenessBaseline
      → Option AgentActionExecutionStatus
      → Flow W Outcome
  unfolding continue_verification is_before wait_for
  verify action effectiveness now none execution = pure done
  verify action effectiveness now (some baseline) none = pure done
  verify action effectiveness now (some baseline) (some execution) =
      if execution.outcome != outcome_succeeded
      then pure done
      else if is_before now effectiveness.settling_until
      then pure (wait_for now effectiveness.settling_until)
      else continue_verification action effectiveness execution baseline now
          effectiveness.verification_ref

  -- `reconcileEffectivenessVerification`.
  unfoldable pub reconcile_effectiveness_verification :
      AgentAction → AgentActionEffectivenessStatus → Time → Flow W Outcome
  unfolding verify
  reconcile_effectiveness_verification action effectiveness now =
      verify action effectiveness now effectiveness.baseline action.status.execution
