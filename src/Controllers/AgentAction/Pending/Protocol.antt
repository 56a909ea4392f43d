-- ===== src/Controllers/AgentAction/Pending/Protocol.antt =====
-- The protocol of an action that waits for its approval: in which order it is escalated.
use fluxseer_rca.Base.{Option, String, List, ◌∷◌, none, some, true, false, ◌==◌, ◌≡◌, pos, ltb_ℤ}
use fluxseer_rca.Api.Meta.{
  ok, sub_time, Time, Error, error_text, is_zero_time, before, add_time, seconds,
}
use fluxseer_rca.Api.Action.{
  AgentAction, AgentActionApprovalStatus, AgentActionNotificationStatus, phase_escalated,
}
use fluxseer_rca.Controllers.Flow.{Outcome, done, requeue, Effect, saved, notified, event}
use fluxseer_rca.Controllers.AgentAction.Env.{Env}
use fluxseer_rca.Controllers.AgentAction.Approval.{spec_digest_of, reset_status}

abbrev pub deadline_of : AgentAction → Time
deadline_of action =
    add_time action.status.updated_at (seconds action.spec.approval_timeout_seconds)

-- The approval stands for the content that the action has now.
abbrev pub IsEvaluated : String → AgentAction → Type 0
IsEvaluated digest action =
    (approval : AgentActionApprovalStatus) × (action.status.approval ≡ some approval)
    × ((approval.action_digest == digest) ≡ true)

-- The action has a deadline, and was not escalated.
pub record IsTimed (action : AgentAction) : Type 0 where
  pub unescalated : (action.status.phase == phase_escalated) ≡ false
  pub limited : ltb_ℤ (pos 0) action.spec.approval_timeout_seconds ≡ true
  pub dated : is_zero_time action.status.updated_at ≡ false

-- The action was evaluated, and its deadline has passed without an escalation.
pub record IsOverdue (digest : String) (action : AgentAction) (now : Time) : Type 0 where
  pub evaluated : IsEvaluated digest action
  pub timed : IsTimed action
  pub due : before now (deadline_of action) ≡ false

-- The status that records an attempt to notify, made now.
abbrev pub IsAttempt : Time → AgentAction → Type 0
IsAttempt now a =
    (n : AgentActionNotificationStatus) × (a.status.notification ≡ some n)
    × (n.last_attempt_at ≡ some now)

abbrev pub IsEscalated : Time → AgentAction → Type 0
IsEscalated now a =
    (a.status.phase ≡ phase_escalated)
    × ((approval : AgentActionApprovalStatus) × (a.status.approval ≡ some approval)
        × (approval.escalated_at ≡ some now))

-- `asked`: the approval was asked for afresh. `attempted`: the attempt to notify is recorded, and
-- not yet made. `informed`: it was made. `blamed`: it failed.
pub data Stage : Type 0 where
  idle asked attempted informed blamed escalated : Stage

pub data Move {W : Type 0} (env : Env W) (action : AgentAction) (now : Time)
    : Stage → Effect → Stage → Type 0 where
  ask :
      (a : AgentAction)
      → ¬ IsEvaluated (spec_digest_of env.spec_digest action) action
      → a.status ≡ reset_status (spec_digest_of env.spec_digest action) now action
      → Move env action now idle (saved a) asked
  announce_asked : (t r m : String) → Move env action now asked (event t r m) asked
  attempt :
      (a : AgentAction)
      → IsOverdue (spec_digest_of env.spec_digest action) action now
      → IsAttempt now a
      → Move env action now idle (saved a) attempted
  inform : Move env action now attempted notified informed
  blame :
      (a : AgentAction) (n : AgentActionNotificationStatus) (e : Error)
      → a.status.notification ≡ some n
      → n.last_error ≡ error_text e
      → Move env action now informed (saved a) blamed
  warn : (t r m : String) → Move env action now blamed (event t r m) blamed
  escalate_unnoticed :
      (a : AgentAction)
      → env.notifier ≡ none
      → IsOverdue (spec_digest_of env.spec_digest action) action now
      → IsEscalated now a
      → Move env action now idle (saved a) escalated
  escalate_informed :
      (a : AgentAction) → IsEscalated now a → Move env action now informed (saved a) escalated
  announce : (t r m : String) → Move env action now escalated (event t r m) escalated

pub data Trace {W : Type 0} (env : Env W) (action : AgentAction) (now : Time) (start : List Effect)
    : Stage → List Effect → Type 0 where
  begin : Trace env action now start idle start
  later :
      {s t : Stage} {log : List Effect} {e : Effect}
      → Trace env action now start s log
      → Move env action now s e t
      → Trace env action now start t (e ∷ log)

pub record IsEscalation {W : Type 0} (env : Env W) (action : AgentAction) (now : Time)
    (start log : List Effect) : Type 0 where
  pub stage : Stage
  pub trace : Trace env action now start stage log

-- The stage in which the escalation is saved: at once without a notifier, else after the message.
unfoldable pub told_stage : {N : Type 0} → Option N → Stage
told_stage none = idle
told_stage (some notify) = informed

-- How a run returns that no error stops. `sleep`: it asks to be run again when the deadline is due.
-- `rest`: there is nothing to wait for. `repeated`: the server's answer to the attempt holds the
-- escalated status already.
pub data IsConcluded {W : Type 0} (env : Env W) (action : AgentAction) (now : Time)
    (start : List Effect) : Outcome → List Effect → Type 0 where
  asked_afresh :
      {log : List Effect}
      → Trace env action now start asked log
      → IsConcluded env action now start done log
  sleep :
      IsEvaluated (spec_digest_of env.spec_digest action) action
      → IsTimed action
      → before now (deadline_of action) ≡ true
      → IsConcluded env action now start (requeue (sub_time (deadline_of action) now)) start
  rest :
      IsEvaluated (spec_digest_of env.spec_digest action) action
      → ¬ IsTimed action
      → IsConcluded env action now start done start
  escalated_now :
      {log : List Effect}
      → Trace env action now start escalated log
      → IsConcluded env action now start done log
  repeated :
      {log : List Effect} (a stored : AgentAction) (w : W)
      → (env.update_status a w).0 ≡ ok stored
      → IsEscalated now stored
      → Trace env action now start informed log
      → IsConcluded env action now start done log
