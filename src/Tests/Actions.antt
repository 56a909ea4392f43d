-- ===== src/Tests/Actions.antt =====
-- The reconciler of AgentActions on concrete inputs.
use fluxseer_rca.Base.{
  ap, sym, String, [], ◌∷◌, Option, none, some, true, false, ◌≡◌, refl, ◌⊎◌, ◌==◌, pos, eqb_ℤ,
  str_ne→ne, ◌≢◌,
}
use fluxseer_rca.Api.Meta.{Result, ok, ok-injective, other}
use fluxseer_rca.Api.Action.{
  AgentAction, AgentActionApprovalStatus, AgentActionExecutionStatus,
  AgentActionEffectivenessStatus, EffectivenessHealthSnapshot, phase_executing,
}
use fluxseer_rca.Api.Investigation.{InvestigationRequest, investigation_no_issue_found}
use fluxseer_rca.Executor.Contract.{ExecutorRequest, HealthSnapshot}
use fluxseer_rca.Executor.Router.{no_result}
use fluxseer_rca.Controllers.Dispatches.{dispatches, IsGuarded, IsRecordedIn}
use fluxseer_rca.Controllers.Effectiveness.{
  evaluate_effectiveness, outcome_effective, evaluate_health, judge, health_is_healthy,
  health_improved, materially_regressed, health_snapshot_is_healthy,
}
use fluxseer_rca.Controllers.Effectiveness.Verdict.{IsRecovered, evaluate_effectiveness-IsRecovered}
use fluxseer_rca.Controllers.AgentAction.Approval.{
  is_agent_action_approved, is_unevaluated, reset_status, spec_digest_of,
}
use fluxseer_rca.Controllers.AgentAction.Execution.{request_of}
use fluxseer_rca.Controllers.AgentAction.Pending.Waiting.{reset_status-waits}
use fluxseer_rca.Controllers.AgentAction.Statuses.{verifying_status, failed_status}
use fluxseer_rca.Controllers.AgentAction.Outcomes.Order.{IsOrdered, verifying_status-IsOrdered}
use fluxseer_rca.Controllers.AgentAction.Reconcile.{reconcile, failed_dispatch}
use fluxseer_rca.Controllers.AgentAction.Reconcile.Failure.{saved_log, failed_dispatch-silent}
use fluxseer_rca.Controllers.AgentAction.Reconcile.Dispatch.{
  IsDue, reconcile-dispatches, reconcile-IsGuarded,
}
use fluxseer_rca.Controllers.AgentAction.Reconcile.Recovery.{reconcile-recovers, reconcile-edited}
use fluxseer_rca.Controllers.AgentAction.Reconcile.Recorded.{execution_id-ne-empty}
use fluxseer_rca.Tests.Worlds.{spec_digest, approval_of, action_with, env, start_of, action_key}

abbrev current_digest : String
current_digest = "kubernetes.rolloutRestart/web"

abbrev approved_action : AgentAction
approved_action = action_with (approval_of true current_digest)

abbrev edited_action : AgentAction
edited_action = action_with (approval_of true "kubernetes.rolloutRestart/api")

abbrev waiting_action : AgentAction
waiting_action = action_with (approval_of false current_digest)

abbrev request : ExecutorRequest
request =
    request_of spec_digest (λ i. "sha256:0123") approved_action (approval_of true current_digest)

abbrev execution : AgentActionExecutionStatus
execution = record {
  phase = "Executing";
  outcome = "";
  execution_id = request.execution_id;
  idempotency_key = request.idempotency_key;
  attempt = pos 1;
  failure_reason = "";
  executor = "";
  summary = "";
  started_at = some (pos 600);
  finished_at = none;
  external_ref = "";
  retryable = false;
}

abbrev executing_action : AgentAction
executing_action = record approved_action {
  status = record approved_action.status {
    resource = record approved_action.status.resource { phase = phase_executing };
    execution = some execution;
  };
}

reconcile-dispatches_example :
    let s = start_of approved_action in
    (dispatches (reconcile env action_key s).1.log ≡ dispatches s.log)
    ⊎ ((action : AgentAction) × ((◌≡◌ {A = Result AgentAction} (ok approved_action) (ok action))
          × ((approval : AgentActionApprovalStatus) × (IsDue spec_digest action approval
                × (dispatches (reconcile env action_key s).1.log ≡ (
                    request_of spec_digest env.identity_digest action approval
                    ∷ dispatches s.log))))))
reconcile-dispatches_example = reconcile-dispatches env action_key (start_of approved_action)

reconcile-IsGuarded_example : IsGuarded (reconcile env action_key (start_of approved_action)).1.log
unfolding IsGuarded
reconcile-IsGuarded_example = reconcile-IsGuarded env action_key (start_of approved_action) tt

executing_recorded : IsRecordedIn request executing_action.status
unfolding IsRecordedIn
executing_recorded = (refl, (execution, refl, refl, refl))

identity_given : (request.execution_id == "") ≡ false
identity_given =
    execution_id-ne-empty spec_digest (λ i. "sha256:0123") approved_action
      (approval_of true current_digest)

reconcile-recovers_example :
    dispatches (reconcile env action_key (start_of executing_action)).1.log
    ≡ dispatches (start_of executing_action).log
reconcile-recovers_example =
    reconcile-recovers env action_key (start_of executing_action) executing_action request refl
      executing_recorded identity_given

digest_differs :
    (approval_of true "kubernetes.rolloutRestart/api").action_digest
    ≢ spec_digest_of spec_digest edited_action
unfolding spec_digest_of
digest_differs = str_ne→ne "kubernetes.rolloutRestart/api" "kubernetes.rolloutRestart/web" refl

reconcile-edited_example :
    dispatches (reconcile env action_key (start_of edited_action)).1.log
    ≡ dispatches (start_of edited_action).log
reconcile-edited_example =
    reconcile-edited env action_key (start_of edited_action) edited_action
      (approval_of true "kubernetes.rolloutRestart/api") refl refl digest_differs

reset_status-waits_example :
    (is_unevaluated
        (spec_digest_of spec_digest edited_action)
        (reset_status (spec_digest_of spec_digest edited_action) (pos 2000) edited_action).approval
      ≡ false)
    × (is_agent_action_approved spec_digest (record edited_action {
      status = reset_status (spec_digest_of spec_digest edited_action) (pos 2000) edited_action;
    })
        ≡ false)
reset_status-waits_example = reset_status-waits env edited_action (pos 2000)

abbrev watched : AgentActionEffectivenessStatus
watched = record {
  phase = "NotVerified";
  outcome = "";
  message = "";
  verification_ref = none;
  baseline = none;
  post_action_health = none;
  started_at = none;
  finished_at = none;
  settling_until = none;
  observation_until = none;
}

verifying_status-IsOrdered_example :
    IsOrdered
      (pos 700)
      (verifying_status executing_action request no_result watched (pos 700) (pos 650))
verifying_status-IsOrdered_example =
    verifying_status-IsOrdered executing_action request no_result watched (pos 700) (pos 650)

abbrev health_before : EffectivenessHealthSnapshot
health_before = record {
  generation = pos 1;
  observed_generation = pos 1;
  desired_replicas = pos 3;
  updated_replicas = pos 3;
  available_replicas = pos 1;
  ready_replicas = pos 1;
  conditions = [];
}

abbrev health_after : HealthSnapshot
health_after = record {
  generation = pos 2;
  observed_generation = pos 2;
  desired_replicas = pos 3;
  updated_replicas = pos 3;
  available_replicas = pos 3;
  ready_replicas = pos 3;
  conditions = [];
}

abbrev verification : InvestigationRequest
verification = record {
  meta = approved_action.meta;
  spec = record {
    target = approved_action.spec.target;
    purpose = "effectivenessVerification";
    correlation = none;
    lookback = pos 0;
    question = "";
    queries = [];
    mode = "readOnly";
    create_risk_signal = false;
    profile = "";
  };
  phase = "Completed";
  outcome = "NoIssueFound";
}

found_effective :
    (evaluate_effectiveness (some health_before) health_after true (some verification)).outcome
    ≡ outcome_effective
unfolding evaluate_effectiveness evaluate_health judge health_is_healthy health_improved
    materially_regressed health_snapshot_is_healthy
found_effective = refl

evaluate_effectiveness-IsRecovered_example :
    (b : EffectivenessHealthSnapshot) × ((v : InvestigationRequest) × ((◌≡◌
          {A = Option EffectivenessHealthSnapshot}
          (some health_before)
          (some b))
        × ((◌≡◌ {A = Option InvestigationRequest} (some verification) (some v))
            × ((true ≡ true)
                × ((eqb_ℤ health_after.desired_replicas b.desired_replicas ≡ true)
                    × ((v.outcome ≡ investigation_no_issue_found) × IsRecovered b health_after))))))
evaluate_effectiveness-IsRecovered_example =
    evaluate_effectiveness-IsRecovered (some health_before) health_after true (some verification)
      found_effective

failed_dispatch-silent_example :
    let sent = record executing_action {
      status = failed_status executing_action (other "boom") (pos 2000);
    } in
    ((failed_dispatch env executing_action no_result
        (other "boom")
        (pos 2000)
        (start_of executing_action)).1.log
      ≡ (start_of executing_action).log)
    ⊎ ((failed_dispatch env executing_action no_result
          (other "boom")
          (pos 2000)
          (start_of executing_action)).1.log
        ≡ saved_log env sent (start_of executing_action))
failed_dispatch-silent_example =
    failed_dispatch-silent env executing_action no_result (other "boom") (pos 2000)
      (start_of executing_action)
      (λ a b w h. ap (λ (x : AgentAction). x.status.phase) (sym (ok-injective h))) refl
