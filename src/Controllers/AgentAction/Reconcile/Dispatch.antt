-- ===== src/Controllers/AgentAction/Reconcile/Dispatch.antt =====
-- When the reconciler dispatches, and what it dispatches.
use fluxseer_rca.Base.{
  String, List, ◌∷◌, Option, none, some, Bool, true, false, ◌≡◌, refl, ◌⊎◌, inl, inr,
}
use fluxseer_rca.Api.Meta.{Key, Result, ok, err}
use fluxseer_rca.Api.Action.{
  AgentAction, AgentActionSpec, AgentActionApprovalStatus, AgentActionEffectivenessStatus,
}
use fluxseer_rca.Executor.Router.{Router}
use fluxseer_rca.Controllers.Flow.{
  Flow, State, Outcome, crashed, Effect, leave, pure, query, or_ignore, ◌>>=◌, and_then,
}
use fluxseer_rca.Controllers.Dispatches.{
  dispatches, IsGuarded, IsStill, IsStill-refl, IsQuiet, quiet_rules, IsQuiet-leave,
}
use fluxseer_rca.Controllers.AgentAction.Env.{Env, now}
use fluxseer_rca.Controllers.AgentAction.Approval.{is_agent_action_approved}
use fluxseer_rca.Controllers.AgentAction.Execution.{request_of}
use fluxseer_rca.Controllers.AgentAction.Pending.{reconcile_pending}
use fluxseer_rca.Controllers.AgentAction.Verification.{reconcile_effectiveness_verification}
use fluxseer_rca.Controllers.AgentAction.Ttl.{reconcile_terminal_state_ttl}
use fluxseer_rca.Controllers.AgentAction.Pending.Quiet.{reconcile_pending-IsQuiet}
use fluxseer_rca.Controllers.AgentAction.Verification.Quiet.{
  reconcile_effectiveness_verification-IsQuiet,
}
use fluxseer_rca.Controllers.AgentAction.Ttl.Quiet.{reconcile_terminal_state_ttl-IsQuiet}
use fluxseer_rca.Controllers.AgentAction.Reconcile.{
  is_terminal, is_dispatched, verifying, execute_action, advance, proceed, reconcile,
}
use fluxseer_rca.Controllers.AgentAction.Reconcile.Quiet.{recover-IsQuiet, without_router-IsQuiet}
use fluxseer_rca.Controllers.AgentAction.Reconcile.Sent.{IsSent, execute_approved-IsSent}

-- The action may be dispatched: it is approved, not finished, not under verification, and no
-- identity of an execution under way is stored.
unfoldable pub IsDue : (AgentActionSpec → String) → AgentAction → AgentActionApprovalStatus → Type 0
IsDue digest action approval =
    (action.status.approval ≡ some approval)
    × ((is_agent_action_approved digest action ≡ true)
        × ((is_terminal action.status.phase ≡ false)
            × ((is_dispatched action.status.phase action.status.execution ≡ false)
                × (verifying action.status.effectiveness ≡ none))))

module _ {W : Type 0} (env : Env W) where
  -- Nothing was dispatched, or the request of the action, which was due.
  unfoldable pub IsStep : AgentAction → List Effect → List Effect → Type 0
  unfolding IsDue dispatches IsGuarded
  IsStep action log log' =
      ((dispatches log' ≡ dispatches log)
        ⊎ ((approval : AgentActionApprovalStatus) × (IsDue env.spec_digest action approval
              × (dispatches log' ≡ (
                  request_of env.spec_digest env.identity_digest action approval
                  ∷ dispatches log)))))
      × (IsGuarded log → IsGuarded log')

  still-IsStep :
      (action : AgentAction) (log log' : List Effect) → IsStill log log' → IsStep action log log'
  unfolding IsStep IsStill
  still-IsStep action log log' (p, g) = (inl p, g)

  sent-IsStep :
      (action : AgentAction) (approval : AgentActionApprovalStatus) (log log' : List Effect)
      → IsDue env.spec_digest action approval
      → IsSent (request_of env.spec_digest env.identity_digest action approval) log log'
      → IsStep action log log'
  unfolding IsStep IsSent
  sent-IsStep action approval log log' due (inl p, g) = (inl p, g)
  sent-IsStep action approval log log' due (inr p, g) = (inr (approval, (due, p)), g)

  quiet-IsStep :
      (action : AgentAction) (m : Flow W Outcome) (s : State W)
      → IsQuiet m
      → IsStep action s.log (m s).1.log
  quiet-IsStep action m s q = still-IsStep action s.log (m s).1.log (q.at s)

  execute_action-IsStep :
      (key : Key) (action : AgentAction) (approval : Option AgentActionApprovalStatus)
      (router : Option (Router W)) (s : State W)
      → action.status.approval ≡ approval
      → is_agent_action_approved env.spec_digest action ≡ true
      → is_terminal action.status.phase ≡ false
      → is_dispatched action.status.phase action.status.execution ≡ false
      → verifying action.status.effectiveness ≡ none
      → IsStep action s.log (execute_action env key action approval router s).1.log
  unfolding execute_action IsDue
  execute_action-IsStep key action none router s p q t d v =
      quiet-IsStep action _ s (IsQuiet-leave crashed)
  execute_action-IsStep key action (some approval) none s p q t d v =
      quiet-IsStep action _ s (without_router-IsQuiet env action approval)
  execute_action-IsStep key action (some approval) (some router) s p q t d v =
      sent-IsStep action approval s.log _ (p, (q, (t, (d, v))))
        (execute_approved-IsSent env key action approval router s d)

  pending-IsQuiet : (action : AgentAction) → IsQuiet (now env >>= reconcile_pending env action)
  pending-IsQuiet action = search (quiet_rules, reconcile_pending-IsQuiet)

  advance-IsStep :
      (key : Key) (action : AgentAction) (s : State W) (approved : Bool)
      → is_agent_action_approved env.spec_digest action ≡ approved
      → is_terminal action.status.phase ≡ false
      → is_dispatched action.status.phase action.status.execution ≡ false
      → verifying action.status.effectiveness ≡ none
      → IsStep action s.log (advance env key action s).1.log
  unfolding advance
  advance-IsStep key action s true q t d v =
      rw q (execute_action-IsStep key action action.status.approval env.executor s refl q t d v)
  advance-IsStep key action s false q t d v =
      rw q (quiet-IsStep action _ s (pending-IsQuiet action))

  verification-IsQuiet :
      (action : AgentAction) (e : AgentActionEffectivenessStatus)
      → IsQuiet (now env >>= reconcile_effectiveness_verification env action e)
  verification-IsQuiet action e = search (quiet_rules, reconcile_effectiveness_verification-IsQuiet)

  ttl-IsQuiet :
      (action : AgentAction) → IsQuiet (now env >>= reconcile_terminal_state_ttl env action)
  ttl-IsQuiet action = search (quiet_rules, reconcile_terminal_state_ttl-IsQuiet)

  unverified-IsStep :
      (key : Key) (action : AgentAction) (s : State W) (terminal under_way : Bool)
      → is_terminal action.status.phase ≡ terminal
      → is_dispatched action.status.phase action.status.execution ≡ under_way
      → verifying action.status.effectiveness ≡ none
      → IsStep action s.log (proceed env key action none s).1.log
  unfolding proceed
  unverified-IsStep key action s true under_way t d v =
      rw t (quiet-IsStep action _ s (ttl-IsQuiet action))
  unverified-IsStep key action s false true t d v =
      rw (t, d) (quiet-IsStep action _ s (recover-IsQuiet env action env.executor))
  unverified-IsStep key action s false false t d v =
      rw (t, d)
        (advance-IsStep key action s (is_agent_action_approved env.spec_digest action) refl t d v)

  proceed-IsStep :
      (key : Key) (action : AgentAction) (e : Option AgentActionEffectivenessStatus) (s : State W)
      → verifying action.status.effectiveness ≡ e
      → IsStep action s.log (proceed env key action e s).1.log
  unfolding proceed
  proceed-IsStep key action (some e) s v = quiet-IsStep action _ s (verification-IsQuiet action e)
  proceed-IsStep key action none s v = unverified-IsStep key action s _ _ refl refl v

  abbrev read_action : Key → State W → Result AgentAction
  read_action key s = (env.get_action key s.world).0

  read-IsStep :
      (key : Key) (r : Result AgentAction) (s : State W)
      → ((a : AgentAction) × ((r ≡ ok a)
            × IsStep a s.log
                ((or_ignore r >>= λ a. proceed env key a (verifying a.status.effectiveness))
                  s).1.log))
        ⊎ IsStill s.log
            ((or_ignore r >>= λ a. proceed env key a (verifying a.status.effectiveness)) s).1.log
  unfolding or_ignore ◌>>=◌ and_then pure leave
  read-IsStep key (ok a) s = inl (a, (refl, proceed-IsStep key a _ s refl))
  read-IsStep key (err e) s = inr (IsStill-refl s.log)

  reconcile-IsStep :
      (key : Key) (s : State W)
      → ((a : AgentAction) × ((read_action key s ≡ ok a)
            × IsStep a s.log (reconcile env key s).1.log))
        ⊎ IsStill s.log (reconcile env key s).1.log
  unfolding reconcile query ◌>>=◌ and_then
  reconcile-IsStep key s =
      read-IsStep key (read_action key s) (record s { world = (env.get_action key s.world).1 })

  -- A run of the reconciler dispatches nothing, or exactly one request: that of the action it read,
  -- which was approved, neither finished nor under verification, and without a stored identity of
  -- an execution under way.
  pub reconcile-dispatches :
      (key : Key) (s : State W)
      → (dispatches (reconcile env key s).1.log ≡ dispatches s.log)
        ⊎ ((action : AgentAction) × ((read_action key s ≡ ok action)
              × ((approval : AgentActionApprovalStatus) × (IsDue env.spec_digest action approval
                    × (dispatches (reconcile env key s).1.log ≡ (
                        request_of env.spec_digest env.identity_digest action approval
                        ∷ dispatches s.log))))))
  unfolding IsStep IsStill
  reconcile-dispatches key s = elim (reconcile-IsStep key s) [
    | inl (a, (p, (inl q, g))) ↦ inl q
    | inl (a, (p, (inr (approval, (due, q)), g))) ↦ inr (a, (p, (approval, (due, q))))
    | inr (q, g) ↦ inl q
  ]

  -- A run of the reconciler from a guarded log ends in a guarded log, however it ends: for each
  -- dispatch in it, the last status that the server took before is Executing and holds the identity
  -- of that execution.
  pub reconcile-IsGuarded :
      (key : Key) (s : State W) → IsGuarded s.log → IsGuarded (reconcile env key s).1.log
  unfolding IsStep IsStill
  reconcile-IsGuarded key s h = elim (reconcile-IsStep key s) [
    | inl (a, (p, (q, g))) ↦ g h
    | inr (q, g) ↦ g h
  ]
