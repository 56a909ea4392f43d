-- ===== src/Controllers/RemediationPlan/Env.antt =====
-- What the reconcilers of RemediationPlans use of the world
-- (internal/controllers/remediationplan_controller.go).
use fluxseer_rca.Base.{String, List, Option, Bool, not, is_some, ◌||◌, ◌!=◌, eqb_ℤ, Char}
use fluxseer_rca.Api.Meta.{StringMap, Time, Key, Result, Selects}
use fluxseer_rca.Api.Action.{AgentAction, AgentActionSpec, RemediationPlan, RemediationPlanStatus}
use fluxseer_rca.Api.Policy.{NamespaceThreshold}
use fluxseer_rca.Guardrails.Engine.{Policy}
use fluxseer_rca.Guardrails.Policy.{PolicyEngine}
use fluxseer_rca.Controllers.Flow.{
  Flow, pure, query, write, or_fail, ◌>>=◌, ◌>>◌, saved, plan_updated, plan_saved,
}

pub record Env (W : Type 0) : Type 0 where
  pub clock : W → Time × W
  pub get_plan : Key → W → Result RemediationPlan × W
  -- The labels of a namespace.
  pub get_namespace : String → W → Result StringMap × W
  pub list_plans : String → W → Result (List RemediationPlan) × W
  pub list_actions : String → W → Result (List AgentAction) × W
  -- `Update` and `Status().Update`: the object as the server stored it.
  pub update_plan : RemediationPlan → W → Result RemediationPlan × W
  pub update_plan_status : RemediationPlan → W → Result RemediationPlan × W
  pub update_action_status : AgentAction → W → Result AgentAction × W
  pub delete_plan : RemediationPlan → W → Result (Unit {0}) × W
  -- `controllerutil.CreateOrUpdate` with its mutation.
  pub create_or_update_action :
      Key → (AgentAction → Result AgentAction) → W → Result AgentAction × W
  pub set_controller_reference : RemediationPlan → AgentAction → Result AgentAction
  -- The enforcer and the engine, none for nil, with what their lists answer.
  pub thresholds : Option (W → Option (Result (List NamespaceThreshold)) × W)
  pub guardrails : Option Policy
  pub policy_engine : Option (W → PolicyEngine × W)
  pub selects : Selects
  pub has_recorder : Bool
  pub quote : String → String
  pub beyond : Char → Char
  pub spec_digest : AgentActionSpec → String
  -- `==` on two instants, which compares how they are represented.
  pub same_instant : Time → Time → Bool

-- `statusChangedPlan`: `!=` on two statuses. The pointers of the two are never the same one, so
-- that a finish on either side is a change.
unfoldable pub plan_status_changed :
    (Time → Time → Bool) → RemediationPlanStatus → RemediationPlanStatus → Bool
plan_status_changed same before after =
    before.phase != after.phase
    || (before.message != after.message
        || (not (eqb_ℤ before.observed_generation after.observed_generation)
            || (not (same before.updated_at after.updated_at)
                || (is_some before.finished_at || is_some after.finished_at))))

module _ {W : Type 0} (env : Env W) where
  abbrev pub now : Flow W Time
  now = query env.clock

  -- `Status().Update`, which returns from the reconciler where it fails.
  unfoldable pub save_action : AgentAction → Flow W AgentAction
  save_action action = do
    r ← query (env.update_action_status action)
    stored ← or_fail r
    write (saved action)
    pure stored

  unfoldable pub save_plan : RemediationPlan → Flow W (Unit {0})
  save_plan plan = do r ← query (env.update_plan_status plan); or_fail r; write (plan_saved plan)

  -- `persistNamespaceDefaults`.
  unfoldable pub persist_namespace_defaults : RemediationPlan → Flow W RemediationPlan
  persist_namespace_defaults plan = do
    r ← query (env.update_plan plan)
    stored ← or_fail r
    write (plan_updated plan)
    pure stored
