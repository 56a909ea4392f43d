-- ===== src/Executor/Uncertain.antt =====
-- When an execution leaves its outcome unknown (internal/executor/router.go).
use fluxseer_rca.Base.{
  String, Option, none, some, true, false, subst, sym, ◌==◌, ◌⊎◌, ◌↔◌, ◌≡◌, ◌≢◌, refl, Bool-cases,
  inl, inr, str_ne→ne,
}
use fluxseer_rca.Api.Meta.{
  Result, ok, err, Error, Time, not_found, conflict, canceled, deadline_exceeded, other, read,
  ok-injective, err-injective,
}
use fluxseer_rca.Domain.{outcome_unknown, outcome_failed, outcome_succeeded}
use fluxseer_rca.Executor.Contract.{ExecutorRequest}
use fluxseer_rca.Executor.Kubernetes.{
  Deployment, KubernetesClient, validate_restart_request, annotate, is_recorded, is_cut_off,
  execution_id_annotation, target_key, success_result, failure_result,
}
use fluxseer_rca.Executor.Restart.{patched, restart, execute_valid, execute}

failed-ne-unknown : ◌≢◌ {A = String} outcome_failed outcome_unknown
failed-ne-unknown = str_ne→ne outcome_failed outcome_unknown refl

succeeded-ne-unknown : ◌≢◌ {A = String} outcome_succeeded outcome_unknown
succeeded-ne-unknown = str_ne→ne outcome_succeeded outcome_unknown refl

-- The call was canceled, or its deadline passed. A connection that is lost otherwise is neither.
abbrev pub IsInterrupted : Error → Type 0
IsInterrupted e = ((s : String) × (e ≡ canceled s)) ⊎ ((s : String) × (e ≡ deadline_exceeded s))

-- The request was valid; the target was read, was the one meant and did not record the execution;
-- and the patch that was sent to it was interrupted.
pub record IsCutOff {W : Type 0} (client : KubernetesClient W) (action : ExecutorRequest)
    (invalid : Option Error) (reading : Result Deployment × W) : Type 0 where
  pub valid : invalid ≡ none
  pub target : Deployment
  pub found : reading.0 ≡ ok target
  pub meant : (target.meta.uid == action.target_uid) ≡ true
  pub unrecorded :
      (read target.template_annotations execution_id_annotation == action.execution_id) ≡ false
  pub error : Error
  pub answer : (client.patch_deployment (annotate action target) reading.1).0 ≡ err error
  pub interrupted : IsInterrupted error

IsInterrupted-by : (e : Error) → is_cut_off e ≡ true → IsInterrupted e
unfolding is_cut_off
IsInterrupted-by (not_found s) h = cc
IsInterrupted-by (conflict s) h = cc
IsInterrupted-by (canceled s) h = inl (s, refl)
IsInterrupted-by (deadline_exceeded s) h = inr (s, refl)
IsInterrupted-by (other s) h = cc

cut_off-IsInterrupted : (e : Error) → (is_cut_off e ≡ true) ↔ IsInterrupted e
unfolding is_cut_off
cut_off-IsInterrupted e =
    (IsInterrupted-by e, λ h. elim h [ inl (s, p) ↦ rw p refl | inr (s, p) ↦ rw p refl ])

not_both : (e : Error) → IsInterrupted e → is_cut_off e ≡ false → ⊥
not_both e i h = cc ((cut_off-IsInterrupted e).1 i, h)

module _ {W : Type 0} (quote : String → String) (client : KubernetesClient W)
    (action : ExecutorRequest) where
  patched-unknown :
      (started : Time) (r : Result Deployment) (w : W)
      → ((patched quote client action started (r, w)).0.result.outcome ≡ outcome_unknown)
        ↔ ((e : Error) × (r ≡ err e) × IsInterrupted e)
  unfolding patched success_result failure_result
  patched-unknown started (ok d) w = (λ h. absurd (succeeded-ne-unknown h), λ (e, p, i). cc)
  patched-unknown started (err e) w = elim (Bool-cases (is_cut_off e)) [
    | inl cut ↦ rw cut (λ h. (e, refl, (cut_off-IsInterrupted e).0 cut), λ h. refl)
    | inr uncut ↦ rw uncut (
      λ h. absurd (failed-ne-unknown h),
      λ (f, p, i). absurd (not_both e (subst IsInterrupted (err-injective (sym p)) i) uncut),
    )
  ]

  IsCutAt : Deployment → W → Type 0
  IsCutAt d w =
      ((d.meta.uid == action.target_uid) ≡ true)
      × (is_recorded action d ≡ false)
      × ((e : Error) × ((client.patch_deployment (annotate action d) w).0 ≡ err e)
          × IsInterrupted e)

  cut_at :
      (invalid : Option Error) (d : Deployment) (w : W)
      → IsCutOff client action invalid (ok d, w)
      → IsCutAt d w
  unfolding IsCutAt is_recorded
  cut_at invalid d w c =
      subst (λ t. IsCutAt t w) (sym (ok-injective c.found))
        (c.meant, c.unrecorded, (c.error, c.answer, c.interrupted))

  restart-unknown :
      (started : Time) (r : Result Deployment) (w : W)
      → ((restart quote client action started (r, w)).0.result.outcome ≡ outcome_unknown)
        ↔ IsCutOff client action none (r, w)
  unfolding restart success_result failure_result is_recorded IsCutAt
  restart-unknown started (err e) w = (λ h. absurd (failed-ne-unknown h), λ c. cc c.found)
  restart-unknown started (ok d) w = elim (Bool-cases (d.meta.uid == action.target_uid)) [
    | inr differ ↦
        (λ h. absurd (failed-ne-unknown (rw differ at h)), λ c. cc (differ, (cut_at none d w c).0))
    | inl same ↦ elim (Bool-cases (is_recorded action d)) [
      | inl old ↦ (
        λ h. absurd (succeeded-ne-unknown (rw (same, old) at h)),
        λ c. cc (old, (cut_at none d w c).1),
      )
      | inr new ↦
          let (r, w') = client.patch_deployment (annotate action d) w in
          (
            λ h.
                let (e, p, i) = (patched-unknown started r w').0 (rw (same, new) at h) in
                record {
                  valid = refl;
                  target = d;
                  found = refl;
                  meant = same;
                  unrecorded = new;
                  error = e;
                  answer = p;
                  interrupted = i;
                },
            λ c. rw (same, new) ((patched-unknown started r w').1 (cut_at none d w c).2),
          )
    ]
  ]

  -- The world in which the target is read, after the clock.
  abbrev pub reading : W → Result Deployment × W
  reading w = client.get_deployment (target_key action) (client.clock w).1

  execute_valid-unknown :
      (started : Time) (invalid : Option Error) (w : W)
      → ((execute_valid quote client action started invalid w).0.result.outcome ≡ outcome_unknown)
        ↔ IsCutOff client action invalid (client.get_deployment (target_key action) w)
  unfolding execute_valid failure_result
  execute_valid-unknown started (some e) w = (λ h. absurd (failed-ne-unknown h), λ c. cc c.valid)
  execute_valid-unknown started none w =
      let (r, w') = client.get_deployment (target_key action) w in restart-unknown started r w'

  -- An execution has the outcome Unknown exactly when the request was valid, the target was read,
  -- was the one meant and did not record the execution, and the patch that was sent to it was
  -- answered by the cancellation or the deadline of the call. A patch whose connection was lost in
  -- any other way has another outcome.
  pub execute-unknown :
      (w : W)
      → ((execute quote client action w).0.result.outcome ≡ outcome_unknown)
        ↔ IsCutOff client action (validate_restart_request quote action) (reading w)
  unfolding execute
  execute-unknown w =
      let (started, w') = client.clock w in
      execute_valid-unknown started (validate_restart_request quote action) w'
