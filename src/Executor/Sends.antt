-- ===== src/Executor/Sends.antt =====
-- When an execution sends a patch.
use fluxseer_rca.Base.{
  ℕ, suc, String, Option, none, some, ◌≡◌, ◌∙◌, inl, inr, arith, Bool-cases, ◌!=◌, if◌then◌else◌,
}
use fluxseer_rca.Api.Meta.{Result, ok, err, Error, Time}
use fluxseer_rca.Executor.Contract.{ExecutorRequest}
use fluxseer_rca.Executor.Kubernetes.{
  Deployment, KubernetesClient, validate_restart_request, annotate, is_recorded, target_key,
}
use fluxseer_rca.Executor.Restart.{patched, restart, execute_valid, execute}
use fluxseer_rca.Executor.Coherence.{IsCoherent, target_now, is_due}

module _ {W : Type 0} (quote : String → String) (client : KubernetesClient W) (sent : W → ℕ)
    (coherent : IsCoherent client sent) (action : ExecutorRequest) where
  open coherent use {
    clock_sent, get_sent, patch_sent, clock_reads, get_reads, get_key, patch_reads, patch_keeps,
  }

  patched_sent :
      (started : Time) (r : Result Deployment) (w : W)
      → sent (patched quote client action started (r, w)).1 ≡ sent w
  unfolding patched
  patched_sent started (ok d) w = clock_sent w
  patched_sent started (err e) w = ground (arith, clock_sent w)

  restart_sent :
      (started : Time) (r : Result Deployment) (w : W)
      → sent (restart quote client action started (r, w)).1
        ≡ (if is_due action none r then suc (sent w) else sent w)
  unfolding restart
  restart_sent started (err e) w = clock_sent w
  restart_sent started (ok d) w = elim (Bool-cases (d.meta.uid != action.target_uid)) [
    | inl other ↦ rw other (clock_sent w)
    | inr same ↦ elim (Bool-cases (is_recorded action d)) [
      | inl old ↦ rw (same, old) (clock_sent w)
      | inr new ↦
          let (r, w') = client.patch_deployment (annotate action d) w in
          rw (same, new) (patched_sent started r w' ∙ patch_sent (annotate action d) w)
    ]
  ]

  execute_valid_sent :
      (started : Time) (v : Option Error) (w : W)
      → sent (execute_valid quote client action started v w).1
        ≡ (if is_due action v (target_now client action w) then suc (sent w) else sent w)
  unfolding execute_valid
  execute_valid_sent started (some e) w = clock_sent w
  execute_valid_sent started none w =
      let (r, w') = client.get_deployment (target_key action) w in
      restart_sent started r w' ∙ rw (get_sent (target_key action) w)

  -- With a coherent client, `Execute` sends one patch if one is due, and none otherwise: not for a
  -- request that is not valid, not for a target that cannot be read or has another UID, and not for
  -- an execution that the target already records.
  pub execute_sent :
      (w : W)
      → sent (execute quote client action w).1 ≡ (
          if is_due action (validate_restart_request quote action) (target_now client action w)
          then suc (sent w)
          else sent w)
  unfolding execute
  execute_sent w =
      let (started, w') = client.clock w in
      execute_valid_sent started (validate_restart_request quote action) w'
      ∙ rw (clock_sent w, clock_reads (target_key action) w)
