-- ===== src/Controllers/AgentAction/Reconcile/Saved.antt =====
-- Where saving a transition returns, the log ends with the status that was saved.
use fluxseer_rca.Base.{String, Bool, true, false, if◌then◌else◌, ◌≡◌, refl, ◌==◌, ◌||◌}
use fluxseer_rca.Api.Meta.{Result, ok, err}
use fluxseer_rca.Api.Action.{AgentAction, AgentActionStatus}
use fluxseer_rca.Executor.Contract.{ExecutorRequest}
use fluxseer_rca.Controllers.Flow.{
  Flow, State, Step, next, exit, pure, leave, query, write, or_fail, ◌>>=◌, ◌>>◌, and_then, saved,
  event,
}
use fluxseer_rca.Controllers.Events.{TransitionEvent, phase_transition_event}
use fluxseer_rca.Controllers.Dispatches.{IsRecorded, IsRecordedIn}
use fluxseer_rca.Controllers.Equality.{status_changed}
use fluxseer_rca.Controllers.AgentAction.Env.{Env, save, record_phase_transition}
use fluxseer_rca.Controllers.AgentAction.Pending.{save_transition}

module _ {W : Type 0} (request : ExecutorRequest) where
  announced :
      (c d : Bool) (e : TransitionEvent) (s : State W)
      → IsRecorded request s.log
      → IsRecorded request
          ((if c then (if d then pure tt else write (event e.type e.reason e.message)) else pure tt)
            s).1.log
  unfolding pure write IsRecorded
  announced true true e s h = h
  announced true false e s h = h
  announced false d e s h = h

  stored :
      (action : AgentAction) (r : Result AgentAction) (s : State W) (a : AgentAction)
      → IsRecordedIn request action.status
      → ((or_fail r >>= λ a. write (saved action) >> pure a) s).0 ≡ next a
      → IsRecorded request ((or_fail r >>= λ a. write (saved action) >> pure a) s).1.log
  unfolding or_fail ◌>>=◌ and_then write pure leave IsRecorded
  stored action (ok x) s a h e = h
  stored action (err x) s a h e = cc

  recorded_and_then :
      {A B : Type 0} (r : Step A) (f : A → Flow W B) (s : State W) (b : B)
      → ((a : A) → r ≡ next a → IsRecorded request s.log)
      → ((a : A) (t : State W) → IsRecorded request t.log → IsRecorded request (f a t).1.log)
      → (and_then r f s).0 ≡ next b
      → IsRecorded request (and_then r f s).1.log
  unfolding and_then
  recorded_and_then (next a) f s b h k e = k a s (h a refl)
  recorded_and_then (exit o) f s b h k e = cc

module _ {W : Type 0} (env : Env W) (request : ExecutorRequest) where
  save_recorded :
      (action : AgentAction) (s : State W) (a : AgentAction)
      → IsRecordedIn request action.status
      → (save env action s).0 ≡ next a
      → IsRecorded request (save env action s).1.log
  unfolding save query ◌>>=◌ and_then
  save_recorded action s a h e =
      stored request action (env.update_status action s.world).0
        (record s { world = (env.update_status action s.world).1 }) a h e

  record_phase_transition_recorded :
      (from to : String) (s : State W)
      → IsRecorded request s.log
      → IsRecorded request (record_phase_transition env from to s).1.log
  unfolding record_phase_transition
  record_phase_transition_recorded from to s h =
      let e = phase_transition_event env.quote from to in
      announced request env.has_recorder (from == to || e.reason == "") e s h

  pub save_transition_recorded :
      (action : AgentAction) (status : AgentActionStatus) (s : State W) (u : Unit {0})
      → status_changed action.status status ≡ true
      → IsRecordedIn request status
      → (save_transition env action status s).0 ≡ next u
      → IsRecorded request (save_transition env action status s).1.log
  unfolding save_transition ◌>>=◌
  save_transition_recorded action status s u changed h e =
      let m = save env (record action { status = status }) in
      rw changed (
        recorded_and_then request (m s).0
          (λ a. record_phase_transition env action.status.phase a.status.phase) (m s).1 u
          (λ a returned. save_recorded (record action { status = status }) s a h returned)
          (λ a t. record_phase_transition_recorded action.status.phase a.status.phase t)
          (rw changed at e))
