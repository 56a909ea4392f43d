-- ===== src/Controllers/AgentAction/Watches.antt =====
-- `mapPendingEscalationActions`: the actions that a change of an escalation chain wakes
-- (internal/controllers/agentaction_controller.go).
use fluxseer_rca.Base.{String, List, [], Bool, ◌&&◌, ◌||◌, ◌==◌, keep, map}
use fluxseer_rca.Api.Meta.{Key, key_of, Result, ok, err, read}
use fluxseer_rca.Api.Action.{AgentAction, phase_waiting_approval}
use fluxseer_rca.Controllers.AgentAction.Env.{annotation_escalation_chain_ref}

unfoldable pub is_affected : String → AgentAction → Bool
is_affected chain action =
    let ref = read action.meta.annotations annotation_escalation_chain_ref in
    action.status.phase == phase_waiting_approval && (ref == "" || ref == chain)

unfoldable pub affected_keys : String → Result (List AgentAction) → List Key
unfolding is_affected
affected_keys chain (err e) = []
affected_keys chain (ok actions) = map (λ a. key_of a.meta) (keep (is_affected chain) actions)

-- `list_actions` lists the actions of a namespace.
module _ {W : Type 0} (list_actions : String → W → Result (List AgentAction) × W) where
  unfoldable pub map_pending_escalation_actions : Key → W → List Key × W
  unfolding affected_keys
  map_pending_escalation_actions chain w =
      let (r, w') = list_actions chain.namespace w in (affected_keys chain.name r, w')
