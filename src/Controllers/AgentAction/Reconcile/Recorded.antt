-- ===== src/Controllers/AgentAction/Reconcile/Recorded.antt =====
-- The status that is saved before a dispatch holds the identity of the request.
use text.Mathlib.TextLemmas.{append-eq-nil_iff}
use fluxseer_rca.Base.{
  String, Option, none, some, true, false, ◌==◌, ◌≡◌, refl, sym, ◌∙◌, ap, ◌+++◌, ne→str_ne,
}
use fluxseer_rca.Api.Meta.{Time, set_resource_status, Result, ok, err}
use fluxseer_rca.Api.Action.{
  AgentAction, AgentActionStatus, AgentActionApprovalStatus, EffectivenessBaseline,
}
use fluxseer_rca.Executor.Contract.{ExecutorRequest, Baseline, build_execution_identity}
use fluxseer_rca.Executor.Router.{Router}
use fluxseer_rca.Controllers.Dispatches.{
  IsReturning, IsRecordedIn, IsReturning-bind, IsReturning-pure, IsReturning-leave,
}
use fluxseer_rca.Controllers.Equality.{status_changed, status_changed_of_ne}
use fluxseer_rca.Controllers.AgentAction.Env.{Env}
use fluxseer_rca.Controllers.AgentAction.Execution.{request_of, identity_of, executing_status}
use fluxseer_rca.Controllers.AgentAction.Baseline.{with_baseline}
use fluxseer_rca.Controllers.AgentAction.Reconcile.{
  is_dispatched, fail_before_dispatch, with_evidence, add_baseline, dispatch_status,
}

executing_status_recorded :
    (action : AgentAction) (approval : AgentActionApprovalStatus) (digest : String)
    (request : ExecutorRequest) (started : Time)
    → IsRecordedIn request (executing_status action approval digest request started)
unfolding IsRecordedIn executing_status set_resource_status
executing_status_recorded action approval digest request started = (refl, (_, refl, refl, refl))

with_baseline_recorded :
    (request : ExecutorRequest) (status : AgentActionStatus) (baseline : EffectivenessBaseline)
    → IsRecordedIn request status
    → IsRecordedIn request (with_baseline baseline status)
unfolding IsRecordedIn with_baseline
with_baseline_recorded request status baseline h = h

module _ {W : Type 0} (env : Env W) where
  fail_before_dispatch-IsReturning :
      {A : Type 0} (P : A → Type 0) (action : AgentAction) (request : ExecutorRequest)
      (reason : String) (e : _)
      → IsReturning P (fail_before_dispatch env {A = A} action request reason e)
  unfolding fail_before_dispatch
  fail_before_dispatch-IsReturning P action request reason e =
      IsReturning-bind P _ _ λ t. IsReturning-bind P _ _ λ stored. IsReturning-leave P _

  with_evidence_recorded :
      (action : AgentAction) (request : ExecutorRequest) (status : AgentActionStatus)
      (r : Result EffectivenessBaseline)
      → IsRecordedIn request status
      → IsReturning (IsRecordedIn request) (with_evidence env action request status r)
  unfolding with_evidence
  with_evidence_recorded action request status (ok baseline) h =
      IsReturning-pure (IsRecordedIn request) _ (with_baseline_recorded request status baseline h)
  with_evidence_recorded action request status (err e) h =
      fail_before_dispatch-IsReturning (IsRecordedIn request) _ _ _ e

  add_baseline_recorded :
      (action : AgentAction) (request : ExecutorRequest) (status : AgentActionStatus)
      (baseline : Option Baseline)
      → IsRecordedIn request status
      → IsReturning (IsRecordedIn request) (add_baseline env action request status baseline)
  unfolding add_baseline
  add_baseline_recorded action request status none h = IsReturning-pure (IsRecordedIn request) _ h
  add_baseline_recorded action request status (some baseline) h =
      IsReturning-bind (IsRecordedIn request) _ _
        λ r. with_evidence_recorded action request status r h

  pub dispatch_status_recorded :
      (action : AgentAction) (approval : AgentActionApprovalStatus) (request : ExecutorRequest)
      (router : Router W)
      → IsReturning (IsRecordedIn request) (dispatch_status env action approval request router)
  unfolding dispatch_status
  dispatch_status_recorded action approval request router =
      IsReturning-bind (IsRecordedIn request) _ _ λ answer.
        IsReturning-bind (IsRecordedIn request) _ _ λ baseline.
          IsReturning-bind (IsRecordedIn request) _ _ λ t.
            add_baseline_recorded action request _ baseline
              (executing_status_recorded action approval _ request _)

exec_ne_empty : ◌≡◌ {A = String} "exec-" "" → ⊥
exec_ne_empty e = cc

prefixed_ne_empty : (s : String) → (("exec-" +++ s) == "") ≡ false
prefixed_ne_empty s =
    ne→str_ne ("exec-" +++ s) ""
      (λ e. exec_ne_empty ((append-eq-nil_iff {p = "exec-"} {q = s}).0 e).0)

-- The identity of an execution is never empty.
pub execution_id-ne-empty :
    (spec_digest : _) (identity_digest : _) (action : AgentAction)
    (approval : AgentActionApprovalStatus)
    → ((request_of spec_digest identity_digest action approval).execution_id == "") ≡ false
unfolding request_of identity_of build_execution_identity
execution_id-ne-empty spec_digest identity_digest action approval = prefixed_ne_empty _

pub recorded_dispatched :
    (after : AgentActionStatus) (request : ExecutorRequest)
    → (request.execution_id == "") ≡ false
    → IsRecordedIn request after
    → is_dispatched after.phase after.execution ≡ true
unfolding IsRecordedIn is_dispatched
recorded_dispatched after request n (p, (e, q, i, k)) = rw (q, p, i, n) refl

true_ne_false : true ≡ false → ⊥
true_ne_false e = cc

-- So the status of an action that was not dispatched changes.
pub recorded_changes :
    (before after : AgentActionStatus) (request : ExecutorRequest)
    → is_dispatched before.phase before.execution ≡ false
    → (request.execution_id == "") ≡ false
    → IsRecordedIn request after
    → status_changed before after ≡ true
unfolding IsRecordedIn is_dispatched
recorded_changes before after request h n (p, (e, q, i, k)) =
    status_changed_of_ne before after (λ same. true_ne_false (
      sym (recorded_dispatched after request n (p, (e, q, i, k)))
      ∙ sym (ap (λ s. is_dispatched s.phase s.execution) same)
      ∙ h))
