-- ===== src/Controllers/AgentAction/Pending/Quiet.antt =====
-- An action that waits for a human is never dispatched.
use fluxseer_rca.Base.{ℤ, String, Option, none, some}
use fluxseer_rca.Api.Meta.{Time, Result, Error}
use fluxseer_rca.Api.Action.{
  AgentAction, AgentActionStatus, AgentActionApprovalStatus, AgentActionNotificationStatus,
}
use fluxseer_rca.Escalation.Router.{ResolveRequest, Route}
use fluxseer_rca.Controllers.Dispatches.{IsQuiet, quiet_rules}
use fluxseer_rca.Controllers.AgentAction.Env.{Env, Message}
use fluxseer_rca.Controllers.AgentAction.Env.Quiet.{save-IsQuiet, record_phase_transition-IsQuiet}
use fluxseer_rca.Controllers.AgentAction.Pending.{
  set_last_error, find_route, record_retry_failure, delivered, notify_escalation, save_transition,
  mark_escalated, escalate, reconcile_approval_timeout, reconcile_pending,
}

ruleset saving = (quiet_rules, save-IsQuiet, record_phase_transition-IsQuiet)

module _ {W : Type 0} (env : Env W) where
  pub save_transition-IsQuiet :
      (action : AgentAction) (status : AgentActionStatus)
      → IsQuiet (save_transition env action status)
  unfolding save_transition
  save_transition-IsQuiet action status = search saving

  set_last_error-IsQuiet :
      (text : String) (action : AgentAction) (n : Option AgentActionNotificationStatus)
      → IsQuiet (set_last_error env text action n)
  unfolding set_last_error
  set_last_error-IsQuiet text action none = search saving
  set_last_error-IsQuiet text action (some n) = search saving

  find_route-IsQuiet :
      (action : AgentAction) (notifier : Option (Message → W → Option Error × W))
      (escalation : Option (ResolveRequest → W → Result (Option Route) × W))
      → IsQuiet (find_route env action notifier escalation)
  unfolding find_route
  find_route-IsQuiet action none escalation = search saving
  find_route-IsQuiet action (some notify) none = search saving
  find_route-IsQuiet action (some notify) (some resolve) = search saving

  record_retry_failure-IsQuiet :
      (count : ℤ) (e : Error) → IsQuiet (record_retry_failure env count e)
  unfolding record_retry_failure
  record_retry_failure-IsQuiet count e = search saving

  delivered-IsQuiet :
      (stored : AgentAction) (count : ℤ) (failure : Option Error)
      → IsQuiet (delivered env stored count failure)
  unfolding delivered
  delivered-IsQuiet stored count none = search (saving, set_last_error-IsQuiet)
  delivered-IsQuiet stored count (some e) =
      search (saving, set_last_error-IsQuiet, record_retry_failure-IsQuiet)

  notify_escalation-IsQuiet :
      (action : AgentAction) (route : Option Route) (now : Time)
      (notifier : Option (Message → W → Option Error × W))
      → IsQuiet (notify_escalation env action route now notifier)
  unfolding notify_escalation
  notify_escalation-IsQuiet action route now none = search saving
  notify_escalation-IsQuiet action route now (some notify) = search (saving, delivered-IsQuiet)

  mark_escalated-IsQuiet :
      (action : AgentAction) (now : Time) (approval : Option AgentActionApprovalStatus)
      → IsQuiet (mark_escalated env action now approval)
  unfolding mark_escalated
  mark_escalated-IsQuiet action now none = search saving
  mark_escalated-IsQuiet action now (some approval) = search (saving, save_transition-IsQuiet)

  reconcile_approval_timeout-IsQuiet :
      (action : AgentAction) (now : Time) → IsQuiet (reconcile_approval_timeout env action now)
  unfolding reconcile_approval_timeout escalate
  reconcile_approval_timeout-IsQuiet action now =
      search (saving, find_route-IsQuiet, notify_escalation-IsQuiet, mark_escalated-IsQuiet)

  pub reconcile_pending-IsQuiet :
      (action : AgentAction) (now : Time) → IsQuiet (reconcile_pending env action now)
  unfolding reconcile_pending
  reconcile_pending-IsQuiet action now =
      search (saving, save_transition-IsQuiet, reconcile_approval_timeout-IsQuiet)
