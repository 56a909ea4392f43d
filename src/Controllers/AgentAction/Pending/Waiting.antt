-- ===== src/Controllers/AgentAction/Pending/Waiting.antt =====
-- What the status that asks for approval afresh means to the next run.
use fluxseer_rca.Base.{false, ◌≡◌, refl, eq→str_eq}
use fluxseer_rca.Api.Meta.{Time}
use fluxseer_rca.Api.Action.{AgentAction}
use fluxseer_rca.Controllers.AgentAction.Env.{Env}
use fluxseer_rca.Controllers.AgentAction.Approval.{
  spec_digest_of, is_unevaluated, is_agent_action_approved, is_approved_by, reset_status,
}

module _ {W : Type 0} (env : Env W) where
  -- The status that asks for approval afresh holds a valid evaluation of the action's content, so
  -- that it is not asked for again, and the action with this status is not approved, whoever stands
  -- in spec.approvedBy.
  pub reset_status-waits :
      (action : AgentAction) (now : Time)
      → (is_unevaluated
            (spec_digest_of env.spec_digest action)
            (reset_status (spec_digest_of env.spec_digest action) now action).approval
          ≡ false)
        × (is_agent_action_approved env.spec_digest (record action {
          status = reset_status (spec_digest_of env.spec_digest action) now action;
        })
            ≡ false)
  unfolding is_unevaluated reset_status is_agent_action_approved is_approved_by spec_digest_of
  reset_status-waits action now =
      let e = eq→str_eq (spec_digest_of env.spec_digest action) _ refl in (rw e refl, rw e refl)
