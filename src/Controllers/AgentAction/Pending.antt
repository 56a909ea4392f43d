-- ===== src/Controllers/AgentAction/Pending.antt =====
-- `reconcilePending` and `reconcileApprovalTimeout`: an action that waits for a human.
pub mod Quiet
pub mod Waiting
pub mod Protocol
pub mod Informing
pub mod Escalation
use fluxseer_rca.Base.{
  String, List, [], ◌∷◌, ◌++◌, Option, none, some, Bool, true, false, not, ◌||◌, ◌==◌, ℤ, pos,
  ltb_ℤ, if◌then◌else◌, ◌+++◌, itoa, length,
}
use fluxseer_rca.Api.Meta.{
  StringMap, Time, read, is_zero_time, before, add_time, sub_time, seconds, Result, ok, err, Error,
  error_text, set_resource_status,
}
use fluxseer_rca.Api.Action.{
  AgentAction, AgentActionStatus, AgentActionApprovalStatus, AgentActionNotificationStatus,
  phase_escalated,
}
use fluxseer_rca.Escalation.Router.{ResolveRequest, Route}
use fluxseer_rca.Controllers.Flow.{
  Flow, Outcome, done, failed, requeue, crashed, pure, leave, query, write, or_fail, ◌>>=◌, ◌>>◌,
  notified, event,
}
use fluxseer_rca.Controllers.Events.{warning}
use fluxseer_rca.Controllers.Equality.{status_changed}
use fluxseer_rca.Controllers.AgentAction.Env.{
  Env, Message, annotation_escalation_chain_ref, target_ref_string, save, record_phase_transition,
}
use fluxseer_rca.Controllers.AgentAction.Approval.{
  spec_digest_of, is_unevaluated, reset_status, attempts,
}

abbrev with_status : AgentAction → AgentActionStatus → AgentAction
with_status action status = record action { status = status }

abbrev route_fields : Option Route → StringMap
route_fields none = []
route_fields (some route) =
    ("escalationChain", route.reference.name)
    ∷ ("escalationChainVersion", route.reference.version)
    ∷ ("escalationStageCount", itoa (pos (length route.chain.spec.stages)))
    ∷ []

unfoldable pub escalation_message : AgentAction → Option Route → Message
escalation_message action route = record {
  title = "FluxSeer RCA approval escalation";
  summary =
      target_ref_string action.spec.target
      +++ " exceeded its "
      +++ itoa action.spec.approval_timeout_seconds
      +++ "s approval timeout";
  body = action.status.message;
  fields =
      (("namespace", action.meta.namespace)
        ∷ ("name", action.meta.name)
        ∷ ("actionType", action.spec.action_type)
        ∷ [])
      ++ route_fields route;
}

-- The status that records an attempt to notify.
unfoldable pub attempt_status : Time → AgentAction → AgentActionStatus
attempt_status now action = record action.status {
  notification = some (record {
    last_attempt_at = some now;
    retry_count = attempts action.status.notification;
    last_error = "";
  });
}

unfoldable pub escalated_status : Time → AgentAction → AgentActionApprovalStatus → AgentActionStatus
escalated_status now action approval = record action.status {
  resource =
      set_resource_status phase_escalated "approval timeout exceeded, escalation notified"
        action.meta.generation now;
  approval = some (record approval { escalated_at = some now });
}

module _ {W : Type 0} (env : Env W) where
  -- `action.Status.Notification.LastError = text`.
  set_last_error : String → AgentAction → Option AgentActionNotificationStatus → Flow W AgentAction
  set_last_error text action none = leave crashed
  set_last_error text action (some n) = pure (
      with_status action
        (record action.status { notification = some (record n { last_error = text }) }))

  unfoldable pub find_route :
      AgentAction
      → Option (Message → W → Option Error × W)
      → Option (ResolveRequest → W → Result (Option Route) × W)
      → Flow W (Option Route)
  find_route action (some notifier) (some resolve) = do
    r ← query (
        resolve (record {
          namespace = action.meta.namespace;
          escalation_chain_ref = read action.meta.annotations annotation_escalation_chain_ref;
          resource_labels = action.meta.labels;
        }))
    or_fail r
  find_route action none escalation = pure none
  find_route action (some notifier) none = pure none

  record_retry_failure : ℤ → Error → Flow W (Unit {0})
  record_retry_failure count e =
      if env.has_recorder
      then write (
          event warning "NotificationRetryFailed"
            ("escalation notification attempt " +++ itoa count +++ " failed: " +++ error_text e))
      else pure tt

  -- After the delivery: a failure is recorded, and returned.
  delivered : AgentAction → ℤ → Option Error → Flow W AgentAction
  unfolding set_last_error record_retry_failure
  delivered stored count none = set_last_error "" stored stored.status.notification
  delivered stored count (some e) = do
    blamed ← set_last_error (error_text e) stored stored.status.notification
    save env blamed
    record_retry_failure count e
    leave (failed e)

  unfoldable pub notify_escalation :
      AgentAction
      → Option Route
      → Time
      → Option (Message → W → Option Error × W)
      → Flow W AgentAction
  unfolding delivered
  notify_escalation action route now none = pure action
  notify_escalation action route now (some notify) = do
    stored ← save env (with_status action (attempt_status now action))
    failure ← query (notify (escalation_message stored route))
    write notified
    delivered stored (attempts action.status.notification) failure

  abbrev save_changed : AgentAction → AgentActionStatus → Flow W (Unit {0})
  save_changed action status = do
    stored ← save env (with_status action status)
    record_phase_transition env action.status.phase stored.status.phase

  -- A status that changed is saved, and its transition recorded.
  unfoldable pub save_transition : AgentAction → AgentActionStatus → Flow W (Unit {0})
  save_transition action status =
      if status_changed action.status status then save_changed action status else pure tt

  mark_escalated : AgentAction → Time → Option AgentActionApprovalStatus → Flow W Outcome
  unfolding save_transition
  mark_escalated action now none = leave crashed
  mark_escalated action now (some approval) = do
    save_transition action (escalated_status now action approval)
    pure done

  escalate : AgentAction → Time → Flow W Outcome
  unfolding find_route notify_escalation mark_escalated
  escalate action now = do
    route ← find_route action env.notifier env.escalation
    informed ← notify_escalation action route now env.notifier
    mark_escalated informed now informed.status.approval

  -- `reconcileApprovalTimeout`.
  unfoldable pub reconcile_approval_timeout : AgentAction → Time → Flow W Outcome
  unfolding escalate
  reconcile_approval_timeout action now =
      let deadline =
        add_time action.status.updated_at (seconds action.spec.approval_timeout_seconds) in
      if action.status.phase == phase_escalated
        || (not (ltb_ℤ (pos 0) action.spec.approval_timeout_seconds)
            || is_zero_time action.status.updated_at)
      then pure done
      else if before now deadline
      then pure (requeue (sub_time deadline now))
      else escalate action now

  -- `reconcilePending`.
  unfoldable pub reconcile_pending : AgentAction → Time → Flow W Outcome
  unfolding save_transition
  reconcile_pending action now =
      let digest = spec_digest_of env.spec_digest action in
      if is_unevaluated digest action.status.approval
      then save_transition action (reset_status digest now action) >> pure done
      else reconcile_approval_timeout action now
