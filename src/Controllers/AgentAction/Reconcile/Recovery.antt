-- ===== src/Controllers/AgentAction/Reconcile/Recovery.antt =====
-- A second run over what the first one stored dispatches nothing.
use fluxseer_rca.Base.{
  String, some, true, false, ◌==◌, ◌≡◌, ◌≢◌, refl, sym, ◌∙◌, subst, inl, inr, ne→str_ne,
}
use fluxseer_rca.Api.Meta.{Key, ok, ok-injective}
use fluxseer_rca.Api.Action.{AgentAction, AgentActionSpec, AgentActionApprovalStatus}
use fluxseer_rca.Executor.Contract.{ExecutorRequest}
use fluxseer_rca.Controllers.Flow.{State}
use fluxseer_rca.Controllers.Dispatches.{dispatches, IsRecordedIn}
use fluxseer_rca.Controllers.AgentAction.Env.{Env}
use fluxseer_rca.Controllers.AgentAction.Approval.{
  is_agent_action_approved, is_approved_by, spec_digest_of,
}
use fluxseer_rca.Controllers.AgentAction.Reconcile.{reconcile}
use fluxseer_rca.Controllers.AgentAction.Reconcile.Recorded.{recorded_dispatched}
use fluxseer_rca.Controllers.AgentAction.Reconcile.Dispatch.{IsDue, reconcile-dispatches}

true_ne_false : true ≡ false → ⊥
true_ne_false e = cc

unapproved :
    (digest : AgentActionSpec → String) (action : AgentAction)
    (approval : AgentActionApprovalStatus)
    → action.status.approval ≡ some approval
    → approval.action_digest ≢ spec_digest_of digest action
    → is_agent_action_approved digest action ≡ false
unfolding is_agent_action_approved is_approved_by spec_digest_of
unapproved digest action approval p n =
    rw (p, ne→str_ne approval.action_digest (spec_digest_of digest action) n) refl

module _ {W : Type 0} (env : Env W) where
  undue_dispatches :
      (key : Key) (s : State W) (action : AgentAction)
      → (env.get_action key s.world).0 ≡ ok action
      → ((approval : AgentActionApprovalStatus) → ¬ IsDue env.spec_digest action approval)
      → dispatches (reconcile env key s).1.log ≡ dispatches s.log
  undue_dispatches key s action read undue = elim (reconcile-dispatches env key s) [
    | inl p ↦ p
    | inr (a, (r, (approval, (due, p)))) ↦ absurd (
        undue approval (
          subst (λ (x : AgentAction). IsDue env.spec_digest x approval)
            (ok-injective (sym r ∙ read)) due))
  ]

  -- A run that reads an action whose status holds the identity of a request, not an empty one, as
  -- an execution under way, dispatches nothing, whatever the executors answer.
  pub reconcile-recovers :
      (key : Key) (s : State W) (action : AgentAction) (request : ExecutorRequest)
      → (env.get_action key s.world).0 ≡ ok action
      → IsRecordedIn request action.status
      → (request.execution_id == "") ≡ false
      → dispatches (reconcile env key s).1.log ≡ dispatches s.log
  unfolding IsDue
  reconcile-recovers key s action request read h n =
      undue_dispatches key s action read (λ approval (p, (q, (t, (d, v)))).
        true_ne_false (sym (recorded_dispatched action.status request n h) ∙ d))

  -- A run that reads an action whose content is not the approved one (its digest is another)
  -- dispatches nothing, whoever stands in spec.approvedBy.
  pub reconcile-edited :
      (key : Key) (s : State W) (action : AgentAction) (approval : AgentActionApprovalStatus)
      → (env.get_action key s.world).0 ≡ ok action
      → action.status.approval ≡ some approval
      → approval.action_digest ≢ spec_digest_of env.spec_digest action
      → dispatches (reconcile env key s).1.log ≡ dispatches s.log
  unfolding IsDue
  reconcile-edited key s action approval read p n =
      undue_dispatches key s action read (λ other (_, (q, _)).
        true_ne_false (sym q ∙ unapproved env.spec_digest action approval p n))
