-- ===== src/Controllers/AgentAction/Baseline/Quiet.antt =====
-- Reading the evidence of a baseline dispatches nothing.
use fluxseer_rca.Base.{Option, none, some}
use fluxseer_rca.Api.Meta.{NamespacedObjectReference}
use fluxseer_rca.Api.Action.{EffectivenessBaseline}
use fluxseer_rca.Controllers.Dispatches.{IsQuiet, quiet_rules}
use fluxseer_rca.Controllers.AgentAction.Env.{Env}
use fluxseer_rca.Controllers.AgentAction.Baseline.{populated, populate_baseline_evidence}

module _ {W : Type 0} (env : Env W) (baseline : EffectivenessBaseline) where
  populated-IsQuiet :
      (reference : Option NamespacedObjectReference) → IsQuiet (populated env baseline reference)
  unfolding populated
  populated-IsQuiet none = search quiet_rules
  populated-IsQuiet (some reference) = search quiet_rules

  pub populate_baseline_evidence-IsQuiet : IsQuiet (populate_baseline_evidence env baseline)
  unfolding populate_baseline_evidence
  populate_baseline_evidence-IsQuiet = populated-IsQuiet baseline.risk_signal_ref
