-- ===== src/Executor/Restart.antt =====
-- The operations of `KubernetesExecutor` (internal/executor/router.go).
use fluxseer_rca.Base.{String, Option, none, some, ◌!=◌, pos, if◌then◌else◌, ◌+++◌}
use fluxseer_rca.Api.Meta.{Time, Result, ok, err, Error, other, wrap_error, is_not_found}
use fluxseer_rca.Domain.{ExecutionResult, outcome_failed, outcome_unknown}
use fluxseer_rca.Executor.Contract.{ExecutorRequest, HealthSnapshot, Baseline}
use fluxseer_rca.Executor.Router.{Executed, Answer, Backend}
use fluxseer_rca.Executor.Kubernetes.{
  Deployment, KubernetesClient, rollout_restart_action, validate_restart_request, success_result,
  failure_result, simulated_result, target_key, annotate, is_recorded, is_cut_off, health_snapshot,
}

abbrev pub named : String → ExecutorRequest → String
named what action = what +++ " " +++ action.target.namespace +++ "/" +++ action.target.name +++ ": "

pub uid_mismatch : (String → String) → String → ExecutorRequest → Deployment → Error
uid_mismatch quote what action d = other (
    what
    +++ " UID mismatch: expected "
    +++ quote action.target_uid
    +++ ", got "
    +++ quote d.meta.uid)

module _ {W : Type 0} (quote : String → String) where
  -- A failure, with the clock read for its end.
  abbrev pub failed :
      KubernetesClient W
      → ExecutorRequest
      → Time
      → String
      → String
      → Error
      → Error
      → W
      → Executed × W
  failed client action started reason outcome e shown w =
      let (finished, w') = client.clock w in
      (
        record {
          result = failure_result action started finished reason outcome e;
          error = some shown;
        },
        w',
      )

  abbrev pub succeeded :
      KubernetesClient W → ExecutorRequest → Time → Deployment → String → W → Executed × W
  succeeded client action started d summary w =
      let (finished, w') = client.clock w in
      (record { result = success_result action started finished d summary; error = none }, w')

  -- After the patch was sent.
  unfoldable pub patched :
      KubernetesClient W → ExecutorRequest → Time → Result Deployment × W → Executed × W
  patched client action started (ok d, w) =
      succeeded client action started d "rollout restart annotation applied" w
  patched client action started (err e, w) =
      let shown = wrap_error (named "patch deployment" action) e in
      if is_cut_off e
      then failed client action started "TimeoutAfterDispatch" outcome_unknown e shown w
      else failed client action started "KubernetesPatchFailed" outcome_failed e shown w

  -- After the deployment was read.
  unfoldable pub restart :
      KubernetesClient W → ExecutorRequest → Time → Result Deployment × W → Executed × W
  unfolding patched uid_mismatch
  restart client action started (err e, w) =
      failed client action started "TargetNotFound" outcome_failed e
        (wrap_error (named "get deployment" action) e) w
  restart client action started (ok d, w) =
      let mismatch = uid_mismatch quote "target" action d in
      if d.meta.uid != action.target_uid
      then failed client action started "TargetUIDMismatch" outcome_failed mismatch mismatch w
      else if is_recorded action d
      then succeeded client action started d
          "rollout restart already recorded for execution identity" w
      else patched client action started (client.patch_deployment (annotate action d) w)

  -- `validated` is what the validation says of the request.
  unfoldable pub execute_valid :
      KubernetesClient W → ExecutorRequest → Time → Option Error → W → Executed × W
  unfolding restart
  execute_valid client action started (some e) w =
      failed client action started "ValidationFailed" outcome_failed e e w
  execute_valid client action started none w =
      restart client action started (client.get_deployment (target_key action) w)

  -- `Execute` with a client.
  unfoldable pub execute : KubernetesClient W → ExecutorRequest → W → Executed × W
  unfolding execute_valid
  execute client action w =
      let (started, w') = client.clock w in
      execute_valid client action started (validate_restart_request quote action) w'

  -- `Execute` with none: a simulation, which reads the clock alone.
  unfoldable pub simulate : (W → Time × W) → ExecutorRequest → W → Executed × W
  simulate clock action w =
      let (started, w') = clock w in
      let (finished, w'') = clock w' in
      (record { result = simulated_result action started finished; error = none }, w'')

  unfoldable pub resolved :
      KubernetesClient W → ExecutorRequest → Result Deployment × W → Answer ExecutionResult × W
  unfolding uid_mismatch
  resolved client action (err e, w) = (if is_not_found e then ok none else err e, w)
  resolved client action (ok d, w) =
      let (finished, w') = client.clock w in
      if d.meta.uid != action.target_uid
      then (err (uid_mismatch quote "target" action d), w)
      else if is_recorded action d
      then (
        ok (
            some (
              success_result action (pos 0) finished d
                "rollout restart recovered by read-after-write")),
        w',
      )
      else (ok none, w)

  unfoldable pub resolve_valid :
      KubernetesClient W → ExecutorRequest → Option Error → W → Answer ExecutionResult × W
  unfolding resolved
  resolve_valid client action (some e) w = (err e, w)
  resolve_valid client action none w =
      resolved client action (client.get_deployment (target_key action) w)

  -- `Resolve`: it reads back what an uncertain execution left, and sends no patch.
  unfoldable pub resolve : KubernetesClient W → ExecutorRequest → W → Answer ExecutionResult × W
  unfolding resolve_valid
  resolve client action w =
      if action.action_type != rollout_restart_action
      then (ok none, w)
      else resolve_valid client action (validate_restart_request quote action) w

  observed :
      {A : Type 0}
      → String
      → ExecutorRequest
      → (Deployment → W → A × W)
      → Result Deployment × W
      → Answer A × W
  unfolding uid_mismatch
  observed what action view (err e, w) =
      (err (wrap_error (named ("get " +++ what +++ " deployment") action) e), w)
  observed what action view (ok d, w) =
      let (a, w') = view d w in
      if d.meta.uid != action.target_uid
      then (err (uid_mismatch quote (what +++ " target") action d), w)
      else (ok (some a), w')

  observe_valid :
      {A : Type 0}
      → KubernetesClient W
      → String
      → ExecutorRequest
      → (Deployment → W → A × W)
      → Option Error
      → W
      → Answer A × W
  unfolding observed
  observe_valid client what action view (some e) w = (err e, w)
  observe_valid client what action view none w =
      observed what action view (client.get_deployment (target_key action) w)

  unfoldable pub capture_baseline : KubernetesClient W → ExecutorRequest → W → Answer Baseline × W
  unfolding observe_valid
  capture_baseline client action =
      observe_valid client "baseline" action
        (λ d w.
          let (captured, w') = client.clock w in
          (
            record {
              captured_at = captured;
              target = action.target;
              target_uid = d.meta.uid;
              health = health_snapshot d;
              digest = client.baseline_digest action.target d.meta.uid (health_snapshot d);
            },
            w',
          ))
        (validate_restart_request quote action)

  unfoldable pub observe_health :
      KubernetesClient W → ExecutorRequest → W → Answer HealthSnapshot × W
  unfolding observe_valid
  observe_health client action =
      observe_valid client "observed" action (λ d w. (health_snapshot d, w))
        (validate_restart_request quote action)

  -- The executor as a backend of the router.
  unfoldable pub kubernetes_backend : KubernetesClient W → Backend W
  kubernetes_backend client = record {
    name = "kubernetes-executor";
    execute = execute client;
    resolver = some (resolve client);
    capturer = some (capture_baseline client);
    observer = some (observe_health client);
  }
