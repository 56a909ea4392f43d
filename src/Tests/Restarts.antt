-- ===== src/Tests/Restarts.antt =====
-- Restarts of a Deployment on concrete inputs.
use fluxseer_rca.Base.{ℕ, suc, [], none, true, ◌≡◌, refl, pos, if◌then◌else◌}
use fluxseer_rca.Api.Meta.{read}
use fluxseer_rca.Executor.Contract.{ExecutorRequest}
use fluxseer_rca.Executor.Kubernetes.{validate_restart_request, is_recorded}
use fluxseer_rca.Executor.Restart.{execute, execute_valid, restart, patched, resolve}
use fluxseer_rca.Executor.Coherence.{is_due, target_now}
use fluxseer_rca.Executor.Sends.{execute_sent}
use fluxseer_rca.Executor.Recovery.{
  Recorded, FindsSuccess, execute_records, execute_again, execute-resolve,
}
use fluxseer_rca.Controllers.AgentAction.Execution.{no_snapshot}
use fluxseer_rca.Tests.Worlds.{
  World, plain, cluster, cluster_coherent, world_of, action_with, approval_of,
}

abbrev sent : World → ℕ
sent w = w.sent

abbrev pub order : ExecutorRequest
order = record {
  execution_id = "exec-0123";
  idempotency_key = "sha256:0123";
  action_digest = "";
  action_type = "kubernetes.rolloutRestart";
  action_index = pos 0;
  target = record {
    cluster = "";
    namespace = "shop";
    kind = "Deployment";
    name = "web";
    api_version = "apps/v1";
    service = "";
  };
  target_uid = "uid-web";
  parameters = [];
  approved_policy_snapshot = no_snapshot;
  approved_by = "";
  dry_run_result = "";
  rollback_plan = [];
  timeout = pos 0;
  attempt = pos 1;
}

abbrev pub start : World
start = world_of (action_with (approval_of true ""))

execute_sent_example : sent (execute plain cluster order start).1 ≡ (
    if is_due order (validate_restart_request plain order) (target_now cluster order start)
    then suc (sent start)
    else sent start)
execute_sent_example = execute_sent plain cluster (λ w. w.sent) cluster_coherent order start

succeeds : (execute plain cluster order start).0.error ≡ none
unfolding execute execute_valid restart patched validate_restart_request is_recorded read
succeeds = refl

execute_records_example :
    (validate_restart_request plain order ≡ none)
    × Recorded plain cluster
        (λ w. w.sent)
        cluster_coherent
        order
        (target_now cluster order (execute plain cluster order start).1)
execute_records_example =
    execute_records plain cluster (λ w. w.sent) cluster_coherent order start succeeds

execute_again_example :
    let w = (execute plain cluster order start).1 in sent (execute plain cluster order w).1 ≡ sent w
execute_again_example =
    execute_again plain cluster (λ w. w.sent) cluster_coherent order start succeeds

execute-resolve_example :
    FindsSuccess plain cluster
      (λ w. w.sent)
      cluster_coherent
      order
      (resolve plain cluster order (execute plain cluster order start).1).0
execute-resolve_example =
    execute-resolve plain cluster (λ w. w.sent) cluster_coherent order start succeeds
