-- ===== src/Tests/Plans.antt =====
-- The reconcilers of plans on concrete plans.
use fluxseer_rca.Base.{
  Bool-cases, [], ◌∷◌, none, some, true, false, ◌≡◌, refl, ◌⊎◌, pos, eqb_ℤ, keep, Char, find,
  sort_stable,
}
use mathlib.Core.List.{Memᴰ}
use fluxseer_rca.Api.Meta.{ok, set_resource_status}
use fluxseer_rca.Api.Action.{RemediationPlan}
use fluxseer_rca.Api.Policy.{NamespaceThresholdSpec}
use fluxseer_rca.Domain.{needs_approval}
use fluxseer_rca.Guardrails.Policy.{
  PolicyEvaluation, PolicyReviewInput, evaluate_policy, select_approval_policy, rule_decision,
  decision_from_rule, collect_matches, is_active, match_approval_policy, selector_matches,
  match_by_namespace,
}
use fluxseer_rca.Guardrails.Resolve.{evaluate, evaluate_listed, evaluate_selected, policy_reference}
use fluxseer_rca.Thresholds.Enforcer.{EnforcementResult}
use fluxseer_rca.Controllers.Flow.{
  State, next, done, event, plan_saved, ◌>>=◌, and_then, query, or_ignore, or_fail, write, pure,
}
use fluxseer_rca.Controllers.Events.{warning, phase_transition_event}
use fluxseer_rca.Controllers.AgentAction.Approval.{is_agent_action_approved}
use fluxseer_rca.Controllers.AgentAction.Reconcile.{is_terminal}
use fluxseer_rca.Controllers.RemediationPlan.Protocol.{IsReached}
use fluxseer_rca.Controllers.RemediationPlan.Reconcile.{reconcile, record_decision, apply_action}
use fluxseer_rca.Controllers.RemediationPlan.Derive.{mutate, remediation_from_plan, derive}
use fluxseer_rca.Controllers.RemediationPlan.Env.{save_action, plan_status_changed, save_plan}
use fluxseer_rca.Controllers.RemediationPlan.Statuses.{decided_status, plan_status}
use fluxseer_rca.Controllers.Equality.{status_changed}
use fluxseer_rca.Controllers.RemediationPlan.Reconcile.Traced.{reconcile-IsReached}
use fluxseer_rca.Controllers.RemediationPlan.Reconcile.Decided.{
  Runs, run, meanwhile, reconcile_decided,
}
use fluxseer_rca.Controllers.RemediationPlan.Admission.{
  with_defaults, defaults_changed, reject_for_threshold, threshold_message, admit, target_namespace,
  labels_or_none,
}
use fluxseer_rca.Controllers.RemediationPlan.Admission.Defaults.{with_defaults-stable}
use fluxseer_rca.Controllers.RemediationPlan.Admission.Conflict.{reject_for_threshold-silent}
use fluxseer_rca.Controllers.RemediationPlan.Statuses.Contract.{
  decided_by_human, decided_status-approves,
}
use fluxseer_rca.Controllers.RemediationPlan.Ttl.{
  owned_by_plan, terminal_finish, latest_finish, finish_among,
}
use fluxseer_rca.Controllers.RemediationPlan.Ttl.Finish.{AllOver, IsAmong, finish_among-IsLatest}
use fluxseer_rca.Tests.Worlds.{plain, spec_digest}
use fluxseer_rca.Tests.PlanWorlds.{
  restart_plan, finished_action, every, manual_policy, engine, env, PlanWorld, start_of, plan_key,
  refusing,
}

reconcile-IsReached_example :
    IsReached spec_digest [] (reconcile env plan_key (start_of "" ok)).1.log
reconcile-IsReached_example = reconcile-IsReached env plan_key (start_of "" ok)

abbrev first_run : State PlanWorld
first_run = (reconcile env plan_key (start_of "" ok)).1

abbrev stored_plan : RemediationPlan
stored_plan = record (restart_plan "WaitingApproval") {
  status = record {
    resource = record {
      phase = "WaitingApproval";
      message = "human approval required before execution";
      observed_generation = pos 1;
      updated_at = pos 2000;
    };
    finished_at = none;
  };
}

plan_stored : Memᴰ (plan_saved stored_plan) first_run.log
unfolding reconcile ◌>>=◌ and_then query or_ignore or_fail write pure admit target_namespace
    labels_or_none evaluate evaluate_listed evaluate_selected evaluate_policy select_approval_policy
    collect_matches is_active match_approval_policy selector_matches match_by_namespace
    rule_decision decision_from_rule policy_reference sort_stable find mutate record_decision
    apply_action remediation_from_plan status_changed Bool-cases derive decided_status
    set_resource_status save_action phase_transition_event plan_status_changed plan_status save_plan
plan_stored = Memᴰ.head refl

-- Between the two runs the world takes the status that was saved.
abbrev second_start : State PlanWorld
second_start = record first_run { world = (start_of "WaitingApproval" ok).world }

reconcile_decided_example : reconcile env plan_key second_start ≡ (next done, second_start)
reconcile_decided_example =
    reconcile_decided env plan_key (restart_plan "WaitingApproval") stored_plan
      (meanwhile second_start.world (run plan_key (Runs.start (start_of "" ok).world))) plan_stored
      refl refl

abbrev defaults : NamespaceThresholdSpec
defaults = record {
  namespace_selector = none;
  active_plans_limit = pos 2;
  pending_approvals_limit = pos 0;
  default_ttl_seconds = pos 3600;
  default_approval_timeout_seconds = pos 60;
  protection_level = "";
  priority = pos 1;
  enabled = true;
}

with_defaults-stable_example :
    (defaults_changed defaults (with_defaults defaults (restart_plan "")) ≡ false)
    × ((eqb_ℤ (pos 0) (pos 0) ≡ false
          → (with_defaults defaults (restart_plan "")).spec.ttl_seconds ≡ pos 0)
        × (eqb_ℤ (pos 300) (pos 0) ≡ false
            → (with_defaults defaults (restart_plan "")).spec.approval_timeout_seconds ≡ pos 300))
with_defaults-stable_example = with_defaults-stable defaults (restart_plan "")

abbrev exceeded : EnforcementResult
exceeded = record {
  allowed = false;
  violations =
      (record { resource = "activePlans"; current = pos 3; limit = pos 2; reason = "" }) ∷ [];
  resolution = none;
}

reject_for_threshold-silent_example :
    ((reject_for_threshold env (restart_plan "") exceeded (pos 7) (start_of "" refusing)).0
      ≡ next done)
    × (((reject_for_threshold env (restart_plan "") exceeded (pos 7) (start_of "" refusing)).1.log
          ≡ [])
        ⊎ ((reject_for_threshold env
              (restart_plan "")
              exceeded
              (pos 7)
              (start_of "" refusing)).1.log
            ≡ (event warning "NamespaceThresholdExceeded" (threshold_message exceeded) ∷ [])))
reject_for_threshold-silent_example =
    reject_for_threshold-silent env (restart_plan "") exceeded (pos 7) (start_of "" refusing)
      "the plan was changed" refl

abbrev question : PolicyReviewInput
question = record {
  review = record {
    resource = record {
      cluster = "";
      namespace = "shop";
      kind = "Deployment";
      name = "web";
      api_version = "apps/v1";
      service = "";
    };
    reasoning = record {
      severity = "high";
      remediation = record {
        action_type = "kubernetes.rolloutRestart";
        description = "";
        parameters = [];
        rollback_plan = [];
      };
    };
    environment = "";
  };
  resource_labels = [];
  namespace_labels = [];
}

abbrev by_policy : PolicyEvaluation
by_policy = record {
  decision = record {
    action = needs_approval;
    approved_by = "";
    reason = "action type policy rule";
    dry_run_result = "dry-run: policy requires human approval";
  };
  policy = some (policy_reference manual_policy "Cluster");
  source = "ApprovalPolicy";
  approval_timeout_seconds = pos 90;
  escalation = none;
}

same_char : Char → Char
same_char c = c

asks_a_human : evaluate plain same_char every engine question ≡ ok by_policy
unfolding evaluate evaluate_listed evaluate_selected select_approval_policy collect_matches
    is_active match_approval_policy selector_matches match_by_namespace sort_stable evaluate_policy
    rule_decision decision_from_rule find
asks_a_human = refl

-- The name of a human is not honoured.
decided_status-approves_example :
    is_agent_action_approved spec_digest
      (decided_by_human spec_digest finished_action by_policy (pos 2000) "sre@example.com")
    ≡ false
decided_status-approves_example =
    decided_status-approves plain same_char every engine question by_policy spec_digest
      finished_action (pos 2000) "sre@example.com" asks_a_human

finished_then : finish_among (restart_plan "Approved") (finished_action ∷ []) ≡ some (pos 900)
unfolding finish_among latest_finish terminal_finish is_terminal owned_by_plan
finished_then = refl

finish_among-IsLatest_example :
    AllOver (pos 900) (keep (owned_by_plan (restart_plan "Approved")) (finished_action ∷ []))
    × IsAmong (pos 900) (keep (owned_by_plan (restart_plan "Approved")) (finished_action ∷ []))
finish_among-IsLatest_example =
    finish_among-IsLatest (restart_plan "Approved") (finished_action ∷ []) (pos 900) finished_then
