-- ===== src/Controllers/AgentAction/Env/Quiet.antt =====
-- Saving a status dispatches nothing.
use fluxseer_rca.Base.{String}
use fluxseer_rca.Api.Action.{AgentAction}
use fluxseer_rca.Controllers.Dispatches.{IsQuiet, quiet_rules}
use fluxseer_rca.Controllers.AgentAction.Env.{Env, save, record_phase_transition}

module _ {W : Type 0} (env : Env W) where
  pub save-IsQuiet : (action : AgentAction) → IsQuiet (save env action)
  unfolding save
  save-IsQuiet action = search quiet_rules

  pub record_phase_transition-IsQuiet :
      (from to : String) → IsQuiet (record_phase_transition env from to)
  unfolding record_phase_transition
  record_phase_transition-IsQuiet from to = search quiet_rules
