-- ===== src/Controllers/AgentAction/Pending/Escalation.antt =====
-- A run over an action that waits for its approval keeps to the protocol.
use fluxseer_rca.Api.Action.{AgentAction}
use fluxseer_rca.Controllers.AgentAction.Env.{Env}
