-- ===== src/Tests/PlanWorlds.antt =====
-- A plan, its action and a world that answers, for the tests of the reconcilers of plans.
use fluxseer_rca.Base.{String, [], ◌∷◌, none, some, true, false, pos, eqb_ℤ}
use fluxseer_rca.Api.Meta.{Key, Result, ok, err, conflict, Selects}
use fluxseer_rca.Api.Action.{AgentAction, RemediationPlan, RemediationPlanStatus}
use fluxseer_rca.Api.Policy.{ActionTypeRule, ApprovalPolicy}
use fluxseer_rca.Guardrails.Engine.{Policy}
use fluxseer_rca.Guardrails.Policy.{PolicyEngine}
use fluxseer_rca.Controllers.Flow.{State}
use fluxseer_rca.Controllers.RemediationPlan.Env.{Env}
use fluxseer_rca.Tests.Worlds.{
  plain, named_object, spec_digest, restart_spec, action_with, approval_of,
}

abbrev pub status_of : String → RemediationPlanStatus
status_of phase = record {
  resource = record {
    phase = phase;
    message = "";
    observed_generation = pos 0;
    updated_at = pos 0;
  };
  finished_at = none;
}

abbrev pub restart_plan : String → RemediationPlan
restart_plan phase = record {
  meta = named_object "shop" "restart" "uid-plan" [];
  spec = record {
    target = restart_spec.target;
    recommended_by = "";
    severity = "high";
    confidence = pos 90;
    dry_run = false;
    ttl_seconds = pos 0;
    approval_timeout_seconds = pos 300;
    summary = "";
    rollback_plan = [];
    references = [];
    steps =
        (record {
          name = "restart";
          action_type = "kubernetes.rolloutRestart";
          description = "";
          parameters = [];
        })
        ∷ [];
  };
  status = status_of phase;
}

abbrev pub finished_action : AgentAction
finished_action =
    let action = action_with (approval_of true "digest") in
    record action {
      meta = named_object "shop" "restart-action" "uid-restart" [];
      status = record action.status {
        resource = record action.status.resource { phase = "Succeeded" };
        finished_at = some (pos 900);
      };
    }

abbrev pub guardrails : Policy
guardrails = record {
  allowed_action_types = "kubernetes.rolloutRestart" ∷ [];
  protected_namespaces = [];
  auto_approve_max_severity = "low";
  require_approval_at_or_above = "medium";
}

abbrev pub every : Selects
every = λ selector labels. ok true

abbrev pub manual_rule : ActionTypeRule
manual_rule = record { action_type = "kubernetes.rolloutRestart"; action = "manual"; reason = "" }

abbrev pub manual_policy : ApprovalPolicy
manual_policy = record {
  meta = named_object "shop" "manual" "uid-manual" [];
  spec = record {
    scope = "Cluster";
    resource_selector = none;
    namespace_selector = none;
    action_type_rules = manual_rule ∷ [];
    severity_rules = [];
    default_approval_timeout = pos 90;
    escalation = none;
    priority = pos 1;
    enabled = true;
  };
  status = record { phase = "Active" };
}

abbrev pub engine : PolicyEngine
engine = record {
  reader = some (ok (manual_policy ∷ []));
  legacy = some guardrails;
  enabled = true;
}

-- The world is the plan and the answer to its updates.
pub record PlanWorld : Type 0 where
  pub plan : RemediationPlan
  pub answer : RemediationPlan → Result RemediationPlan

abbrev pub env : Env PlanWorld
env = record {
  clock = λ w. (pos 2000, w);
  get_plan = λ k w. (ok w.plan, w);
  get_namespace = λ name w. (ok [], w);
  list_plans = λ name w. (ok (w.plan ∷ []), w);
  list_actions = λ name w. (ok (finished_action ∷ []), w);
  update_plan = λ p w. (ok p, record w { plan = p });
  update_plan_status = λ p w. (w.answer p, w);
  update_action_status = λ a w. (ok a, w);
  delete_plan = λ p w. (ok tt, w);
  create_or_update_action = λ k change w. (change finished_action, w);
  set_controller_reference = λ p a. ok a;
  thresholds = none;
  guardrails = some guardrails;
  policy_engine = some (λ w. (engine, w));
  selects = every;
  has_recorder = true;
  quote = plain;
  beyond = λ c. c;
  spec_digest = spec_digest;
  same_instant = eqb_ℤ;
}

abbrev pub start_of : String → (RemediationPlan → Result RemediationPlan) → State PlanWorld
start_of phase answer = record {
  world = record { plan = restart_plan phase; answer = answer };
  log = [];
}

abbrev pub plan_key : Key
plan_key = record { namespace = "shop"; name = "restart" }

abbrev pub refusing : RemediationPlan → Result RemediationPlan
refusing p = err (conflict "the plan was changed")
