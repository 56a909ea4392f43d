-- ===== src/Controllers/AgentAction/Reconcile/Sent.antt =====
-- The approved path dispatches at most its own request, after the identity was stored.
use fluxseer_rca.Base.{List, ◌∷◌, false, ◌≡◌, refl, ◌∙◌, ◌⊎◌, inl, inr}
use fluxseer_rca.Api.Meta.{Key}
use fluxseer_rca.Api.Action.{AgentAction, AgentActionApprovalStatus}
use fluxseer_rca.Executor.Contract.{ExecutorRequest}
use fluxseer_rca.Executor.Router
use fluxseer_rca.Executor.Router.{Router, Executed}
use fluxseer_rca.Controllers.Flow.{
  Flow, State, Step, next, exit, Effect, dispatched, query, write, ◌>>=◌, and_then,
}
use fluxseer_rca.Controllers.Dispatches.{dispatches, IsRecorded, IsGuarded, IsStill}
use fluxseer_rca.Controllers.AgentAction.Env.{Env}
use fluxseer_rca.Controllers.AgentAction.Execution.{request_of}
use fluxseer_rca.Controllers.AgentAction.Pending.{save_transition}
use fluxseer_rca.Controllers.AgentAction.Pending.Quiet.{save_transition-IsQuiet}
use fluxseer_rca.Controllers.AgentAction.Reconcile.{
  is_dispatched, dispatch_status, send, after_dispatch, execute_approved,
}
use fluxseer_rca.Controllers.AgentAction.Reconcile.Quiet.{
  dispatch_status-IsQuiet, after_dispatch-IsQuiet,
}
use fluxseer_rca.Controllers.AgentAction.Reconcile.Recorded.{
  dispatch_status_recorded, execution_id-ne-empty, recorded_changes,
}
use fluxseer_rca.Controllers.AgentAction.Reconcile.Saved.{save_transition_recorded}

-- From one log to the next at most the request was dispatched, once, after its identity was stored.
unfoldable pub IsSent : ExecutorRequest → List Effect → List Effect → Type 0
unfolding dispatches IsGuarded
IsSent request log log' =
    ((dispatches log' ≡ dispatches log) ⊎ (dispatches log' ≡ (request ∷ dispatches log)))
    × (IsGuarded log → IsGuarded log')

pub still-IsSent :
    (request : ExecutorRequest) (log log' : List Effect)
    → IsStill log log'
    → IsSent request log log'
unfolding IsSent IsStill
still-IsSent request log log' (p, g) = (inl p, g)

still_then-IsSent :
    (request : ExecutorRequest) (a b c : List Effect)
    → IsStill a b
    → IsSent request b c
    → IsSent request a c
unfolding IsSent IsStill
still_then-IsSent request a b c (p, g) (inl q, h) = (inl (q ∙ p), λ x. h (g x))
still_then-IsSent request a b c (p, g) (inr q, h) = (inr (rw p at q), λ x. h (g x))

module _ {W A B : Type 0} (request : ExecutorRequest) where
  IsSent-and_then :
      (log : List Effect) (r : Step A) (f : A → Flow W B) (s : State W)
      → IsStill log s.log
      → ((a : A) → r ≡ next a → IsSent request s.log (f a s).1.log)
      → IsSent request log (and_then r f s).1.log
  unfolding and_then
  IsSent-and_then log (next a) f s h k =
      still_then-IsSent request log s.log (f a s).1.log h (k a refl)
  IsSent-and_then log (exit o) f s h k = still-IsSent request log s.log h

module _ {W : Type 0} (env : Env W) where
  send-IsSent :
      (key : Key) (request : ExecutorRequest) (router : Router W) (s : State W)
      → IsRecorded request s.log
      → IsSent request s.log ((send env request router >>= after_dispatch env key request) s).1.log
  unfolding send ◌>>=◌ and_then write query IsSent IsStill dispatches IsGuarded
  send-IsSent key request router s h =
      let (executed, w) = fluxseer_rca.Executor.Router.execute env.quote router request s.world in
      let (p, g) =
        (after_dispatch-IsQuiet env key request executed).at
          (record { world = w; log = dispatched request ∷ s.log }) in
      (inr p, λ x. g (h, x))

  pub execute_approved-IsSent :
      (key : Key) (action : AgentAction) (approval : AgentActionApprovalStatus) (router : Router W)
      (s : State W)
      → is_dispatched action.status.phase action.status.execution ≡ false
      → IsSent
          (request_of env.spec_digest env.identity_digest action approval)
          s.log
          (execute_approved env key action approval router s).1.log
  unfolding execute_approved ◌>>=◌
  execute_approved-IsSent key action approval router s fresh =
      let request = request_of env.spec_digest env.identity_digest action approval in
      let m = dispatch_status env action approval request router in
      IsSent-and_then request s.log (m s).0 _ (m s).1
        ((dispatch_status-IsQuiet env action approval request router).at s)
        λ status returned.
          let recorded =
            (dispatch_status_recorded env action approval request router).at s status returned in
          let n = save_transition env action status in
          let t = (m s).1 in
          IsSent-and_then request t.log (n t).0 _ (n t).1
            ((save_transition-IsQuiet env action status).at t)
            λ u saved. send-IsSent key request router (n t).1 (
              save_transition_recorded env request action status t u
                (recorded_changes action.status status request fresh
                  (execution_id-ne-empty env.spec_digest env.identity_digest action approval)
                  recorded)
                recorded saved)
