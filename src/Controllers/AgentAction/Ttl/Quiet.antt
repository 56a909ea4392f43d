-- ===== src/Controllers/AgentAction/Ttl/Quiet.antt =====
-- The time to live of an action dispatches nothing.
use fluxseer_rca.Base.{Option, none, some}
use fluxseer_rca.Api.Meta.{Time}
use fluxseer_rca.Api.Action.{AgentAction}
use fluxseer_rca.Controllers.Dispatches.{IsQuiet, quiet_rules}
use fluxseer_rca.Controllers.AgentAction.Env.{Env}
use fluxseer_rca.Controllers.AgentAction.Ttl.{delete, expire, reconcile_terminal_state_ttl}

module _ {W : Type 0} (env : Env W) where
  expire-IsQuiet :
      (action : AgentAction) (now : Time) (finished : Option Time)
      → IsQuiet (expire env action now finished)
  unfolding expire delete
  expire-IsQuiet action now none = search quiet_rules
  expire-IsQuiet action now (some finished) = search quiet_rules

  pub reconcile_terminal_state_ttl-IsQuiet :
      (action : AgentAction) (now : Time) → IsQuiet (reconcile_terminal_state_ttl env action now)
  unfolding reconcile_terminal_state_ttl
  reconcile_terminal_state_ttl-IsQuiet action now = search (quiet_rules, expire-IsQuiet)
