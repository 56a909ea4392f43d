-- ===== src/Controllers/RemediationPlan/Protocol.antt =====
-- The protocol of a plan: in which order its decision becomes visible.
use fluxseer_rca.Base.{String, List, ◌∷◌, some, ◌≡◌, ◌≢◌}
use fluxseer_rca.Api.Action.{
  AgentAction, AgentActionSpec, AgentActionApprovalStatus, RemediationPlan, phase_rejected,
}
use fluxseer_rca.Controllers.Flow.{Effect, saved, event, plan_updated, plan_saved, action_applied}
use fluxseer_rca.Controllers.AgentAction.Approval.{spec_digest_of}

-- `applied`: the action exists as the plan asks for it. `stored`: it has the phase of the decision.
-- `decided`: so does the plan.
pub data Stage : Type 0 where
  fresh refused : Stage
  applied : AgentAction → Stage
  stored decided : String → Stage

-- The status of an action that holds a decision on the action's content.
pub record IsDecided (digest : AgentActionSpec → String) (phase : String) (action : AgentAction)
    : Type 0 where
  pub approval : AgentActionApprovalStatus
  pub holds : action.status.approval ≡ some approval
  pub content : approval.action_digest ≡ spec_digest_of digest action
  pub visible : action.status.phase ≡ phase

pub data Move (digest : AgentActionSpec → String) : Stage → Effect → Stage → Type 0 where
  default : (plan : RemediationPlan) → Move digest fresh (plan_updated plan) fresh
  refuse :
      (plan : RemediationPlan)
      → plan.status.phase ≡ phase_rejected
      → Move digest fresh (plan_saved plan) refused
  apply : (action : AgentAction) → Move digest fresh (action_applied action) (applied action)
  store :
      (action after : AgentAction) (phase : String)
      → after.spec ≡ action.spec
      → IsDecided digest phase after
      → Move digest (applied action) (saved after) (stored phase)
  warn_unsaved : (t r m : String) → Move digest fresh (event t r m) refused
  warn : (t r m : String) → Move digest refused (event t r m) refused
  announce : (t r m phase : String) → Move digest (stored phase) (event t r m) (stored phase)
  decide :
      (plan : RemediationPlan) (phase : String)
      → plan.status.phase ≡ phase
      → phase ≢ ""
      → Move digest (stored phase) (plan_saved plan) (decided phase)

-- The logs that the protocol leads to from `start`. An action whose status is the decision's
-- already need not be saved.
pub data Trace (digest : AgentActionSpec → String) (start : List Effect)
    : Stage → List Effect → Type 0 where
  begin : Trace digest start fresh start
  later :
      {s t : Stage} {log : List Effect} {e : Effect}
      → Trace digest start s log
      → Move digest s e t
      → Trace digest start t (e ∷ log)
  silently :
      {action : AgentAction} {log : List Effect} (phase : String)
      → Trace digest start (applied action) log
      → IsDecided digest phase action
      → Trace digest start (stored phase) log

pub record IsReached (digest : AgentActionSpec → String) (start log : List Effect) : Type 0 where
  pub stage : Stage
  pub trace : Trace digest start stage log
