-- ===== src/Executor/Recovery.antt =====
-- A restart is recorded where it was sent, so that it is not sent again, and is found later.
use fluxseer_rca.Base.{
  ℕ, pos, String, Option, none, some, true, false, ◌≡◌, refl, sym, subst, ◌∙◌, inl, inr, arith,
  Bool-cases, ◌!=◌,
}
use fluxseer_rca.Api.Meta.{Result, ok, err, Error, Key, key_of, Time, ok-injective}
use fluxseer_rca.Domain.{ExecutionResult, outcome_succeeded}
use fluxseer_rca.Executor.Contract.{ExecutorRequest}
use fluxseer_rca.Executor.Router.{Answer}
use fluxseer_rca.Executor.Kubernetes.{
  Deployment, KubernetesClient, execution_id_annotation, validate_restart_request, annotate,
  is_recorded, is_cut_off, target_key, success_result, rollout_restart_action,
}
use fluxseer_rca.Executor.Restart.{
  patched, restart, execute_valid, execute, resolved, resolve_valid, resolve,
}
use fluxseer_rca.Executor.Coherence.{IsCoherent, target_now, is_due, annotate-is_recorded}
use fluxseer_rca.Executor.Sends.{execute_sent}

module _ {W : Type 0} (quote : String → String) (client : KubernetesClient W) (sent : W → ℕ)
    (coherent : IsCoherent client sent) (action : ExecutorRequest) where
  open coherent use {
    clock_sent, get_sent, patch_sent, clock_reads, get_reads, get_key, patch_reads, patch_keeps,
  }

  -- The target is read, is the one meant, and records the execution.
  pub record Recorded (r : Result Deployment) : Type 0 where
    pub deployment : Deployment
    pub present : r ≡ ok deployment
    pub meant : (deployment.meta.uid != action.target_uid) ≡ false
    pub recorded : is_recorded action deployment ≡ true

  Recorded-again : {r r' : Result Deployment} → r' ≡ r → Recorded r → Recorded r'
  Recorded-again e h = subst Recorded (sym e) h

  patched_records :
      (started : Time) (r : Result Deployment) (w : W)
      → ((d : Deployment) → r ≡ ok d → Recorded (target_now client action w))
      → (patched quote client action started (r, w)).0.error ≡ none
      → Recorded (target_now client action (patched quote client action started (r, w)).1)
  unfolding patched
  patched_records started (ok d) w f h =
      Recorded-again (clock_reads (target_key action) w) (f d refl)
  patched_records started (err e) w f h = elim (Bool-cases (is_cut_off e)) [
    | inl cut ↦ cc (rw cut at h)
    | inr uncut ↦ cc (rw uncut at h)
  ]

  -- What a patch of the target leaves to be read.
  patch_records :
      (d d' : Deployment) (w : W)
      → key_of d.meta ≡ target_key action
      → (d.meta.uid != action.target_uid) ≡ false
      → (client.patch_deployment (annotate action d) w).0 ≡ ok d'
      → Recorded (target_now client action (client.patch_deployment (annotate action d) w).1)
  unfolding annotate is_recorded
  patch_records d d' w k u e =
      let (same_uid, same_annotations) = patch_keeps (annotate action d) d' w e in
      record {
        deployment = d';
        present =
            subst
              (λ (j : Key).
                (client.get_deployment j (client.patch_deployment (annotate action d) w).1).0
                ≡ ok d')
              k (patch_reads (annotate action d) d' w e);
        meant = rw same_uid u;
        recorded = rw (same_annotations execution_id_annotation) (annotate-is_recorded action d);
      }

  restart_records :
      (started : Time) (r : Result Deployment) (w : W)
      → target_now client action w ≡ r
      → (restart quote client action started (r, w)).0.error ≡ none
      → Recorded (target_now client action (restart quote client action started (r, w)).1)
  unfolding restart
  restart_records started (err e) w t h = cc
  restart_records started (ok d) w t h = elim (Bool-cases (d.meta.uid != action.target_uid)) [
    | inl other ↦ cc (rw other at h)
    | inr same ↦ elim (Bool-cases (is_recorded action d)) [
      | inl old ↦
          rw (same, old)
            (Recorded-again (clock_reads (target_key action) w)
              (record { deployment = d; present = t; meant = same; recorded = old }))
      | inr new ↦
          let (r, w') = client.patch_deployment (annotate action d) w in
          rw (same, new)
            (patched_records started r w'
              (λ d' e. patch_records d d' w (get_key (target_key action) w d t) same e)
              (rw (same, new) at h))
    ]
  ]

  execute_valid_records :
      (started : Time) (v : Option Error) (w : W)
      → (execute_valid quote client action started v w).0.error ≡ none
      → (v ≡ none)
        × Recorded (target_now client action (execute_valid quote client action started v w).1)
  unfolding execute_valid
  execute_valid_records started (some e) w h = cc
  execute_valid_records started none w h =
      let key = target_key action in
      let (r, w') = client.get_deployment key w in
      (refl, restart_records started r w' (get_reads key key w) h)

  -- With a coherent client, an execution without an error was of a valid request, and leaves the
  -- target with the execution recorded on it.
  pub execute_records :
      (w : W)
      → (execute quote client action w).0.error ≡ none
      → (validate_restart_request quote action ≡ none)
        × Recorded (target_now client action (execute quote client action w).1)
  unfolding execute
  execute_records w h =
      let (started, w') = client.clock w in
      execute_valid_records started (validate_restart_request quote action) w' h

  not_due : (r : Result Deployment) → Recorded r → is_due action none r ≡ false
  not_due (err e) h = cc (h.present)
  not_due (ok d) h =
      let same = ok-injective (sym h.present) in
      rw
        (
          subst (λ (x : Deployment). (x.meta.uid != action.target_uid) ≡ false) same h.meant,
          subst (λ (x : Deployment). is_recorded action x ≡ true) same h.recorded,
        )
        refl

  -- With a coherent client, executing again at once what was executed without an error sends no
  -- patch.
  pub execute_again :
      (w : W)
      → (execute quote client action w).0.error ≡ none
      → let w' = (execute quote client action w).1 in
        sent (execute quote client action w').1 ≡ sent w'
  execute_again w h =
      let (valid, r) = execute_records w h in
      let w' = (execute quote client action w).1 in
      execute_sent quote client sent coherent action w' ∙ rw (valid, not_due _ r) refl

  abbrev pub FindsSuccess : Answer ExecutionResult → Type 0
  FindsSuccess answer =
      (result : ExecutionResult) × (answer ≡ ok (some result))
      × (result.outcome ≡ outcome_succeeded)
      × (result.execution_id ≡ action.execution_id)

  resolved_finds :
      (r : Result Deployment) (w : W)
      → Recorded r
      → FindsSuccess (resolved quote client action (r, w)).0
  unfolding resolved success_result
  resolved_finds (err e) w h = cc
  resolved_finds (ok d) w h =
      let same = ok-injective (sym h.present) in
      (
        success_result action (pos 0) (client.clock w).0 d
            "rollout restart recovered by read-after-write",
        rw
            (
              subst (λ (x : Deployment). (x.meta.uid != action.target_uid) ≡ false) same h.meant,
              subst (λ (x : Deployment). is_recorded action x ≡ true) same h.recorded,
            )
            refl,
        refl,
        refl,
      )

  valid_action_type :
      validate_restart_request quote action ≡ none
      → (action.action_type != rollout_restart_action) ≡ false
  unfolding validate_restart_request
  valid_action_type h = ground arith

  resolve_finds :
      (w : W)
      → validate_restart_request quote action ≡ none
      → Recorded (target_now client action w)
      → FindsSuccess (resolve quote client action w).0
  unfolding resolve resolve_valid
  resolve_finds w valid r =
      let key = target_key action in
      let (found, w') = client.get_deployment key w in
      rw (valid_action_type valid, valid) (resolved_finds found w' r)

  -- With a coherent client, after an execution without an error, `Resolve` finds it: it answers a
  -- result of this execution's identity whose outcome is success.
  pub execute-resolve :
      (w : W)
      → (execute quote client action w).0.error ≡ none
      → FindsSuccess (resolve quote client action (execute quote client action w).1).0
  execute-resolve w h =
      let (valid, r) = execute_records w h in
      resolve_finds (execute quote client action w).1 valid r
