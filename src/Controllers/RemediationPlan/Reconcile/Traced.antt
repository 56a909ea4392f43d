-- ===== src/Controllers/RemediationPlan/Reconcile/Traced.antt =====
-- A run over a plan keeps to the protocol.
use fluxseer_rca.Base.{
  String, List, Option, none, some, false, ◌≡◌, ◌≢◌, str_ne→ne, refl, ◌==◌, ◌!=◌, ◌||◌, subst, sym,
}
use fluxseer_rca.Api.Meta.{Time, Key, set_resource_status}
use fluxseer_rca.Api.Action.{AgentAction, RemediationPlan, RemediationPlanStatus}
use fluxseer_rca.Domain.{ApprovalAction, auto_approve, needs_approval, reject}
use fluxseer_rca.Guardrails.Policy.{PolicyEngine, PolicyEvaluation}
use fluxseer_rca.Controllers.Flow.{State, Step, next, exit, Effect}
use fluxseer_rca.Controllers.Equality.{status_changed, status_unchanged_eq}
use fluxseer_rca.Controllers.Triples.{
  Triple, Ends, Triple-pure, Triple-query, Triple-or_fail, Triple-or_ignore, Triple-if,
  Triple-write, Triple-bind,
}
use fluxseer_rca.Controllers.Events.{emit_transition, phase_transition_event}
use fluxseer_rca.Controllers.RemediationPlan.Env.{Env, save_action, save_plan, plan_status_changed}
use fluxseer_rca.Controllers.RemediationPlan.Statuses.{phase_of, plan_status, decided_status}
use fluxseer_rca.Controllers.RemediationPlan.Statuses.Contract.{decided_status-IsDecided}
use fluxseer_rca.Controllers.RemediationPlan.Protocol.{
  Stage, fresh, applied, stored, IsDecided, begin, later, silently, IsReached, apply, store,
  announce, decide,
}
use fluxseer_rca.Controllers.RemediationPlan.Admission.Traced.{
  In, Out, reached, namespace_labels_traced, admit_traced,
}
use fluxseer_rca.Controllers.RemediationPlan.Reconcile
use fluxseer_rca.Controllers.RemediationPlan.Reconcile.{
  evaluate_with, evaluate_policy, apply_action, finish_time, record_action, record_plan,
  record_decision, proceed, reconcile,
}

phase_of-ne-empty : (a : ApprovalAction) → phase_of a ≢ ""
unfolding phase_of
phase_of-ne-empty auto_approve = str_ne→ne _ "" refl
phase_of-ne-empty needs_approval = str_ne→ne _ "" refl
phase_of-ne-empty reject = str_ne→ne _ "" refl

module _ {W : Type 0} (env : Env W) (start : List Effect) where
  evaluate_with_traced :
      (plan : RemediationPlan) (engine : Option (W → PolicyEngine × W))
      → Triple
          (In env start fresh)
          (evaluate_with env plan engine)
          (λ _. In env start fresh)
          (Out env start)
  unfolding evaluate_with
  evaluate_with_traced plan none = Triple-or_fail _ (reached env start fresh)
  evaluate_with_traced plan (some engine) =
      Triple-bind (namespace_labels_traced env start _)
        (λ labels. Triple-bind (Triple-query _) (λ e. Triple-or_fail _ (reached env start fresh)))

  apply_action_traced :
      (plan : RemediationPlan) (evaluation : PolicyEvaluation)
      → Triple
          (In env start fresh)
          (apply_action env plan evaluation)
          (λ action. In env start (applied action))
          (Out env start)
  unfolding apply_action
  apply_action_traced plan evaluation = Triple-bind (Triple-query _) (λ r.
      Triple-bind (Triple-or_fail _ (reached env start fresh)) (λ action.
        Triple-bind (Triple-write _ (λ log t. later t (apply action)))
          (λ u. Triple-pure _ (λ log t. t))))

  finish_time_traced :
      (stage : Stage) (a : ApprovalAction) (t : Time)
      → Triple (In env start stage) (finish_time env a t) (λ _. In env start stage) (Out env start)
  unfolding finish_time
  finish_time_traced stage auto_approve t = Triple-pure _ (λ log t. t)
  finish_time_traced stage needs_approval t = Triple-pure _ (λ log t. t)
  finish_time_traced stage reject t = Triple-query _

  announced :
      (phase from to : String)
      → Triple {W = W}
          (In env start (stored phase))
          (emit_transition env.has_recorder env.quote from to)
          (λ _. In env start (stored phase))
          (Out env start)
  announced phase from to =
      Triple-if env.has_recorder
        (λ h.
          Triple-if (from == to || (phase_transition_event env.quote from to).reason == "")
            (λ c. Triple-pure _ (λ log t. t))
            (λ c. Triple-write _ (λ log t. later t (announce _ _ _ phase))))
        (λ h. Triple-pure _ (λ log t. t))

  unchanged :
      (action : AgentAction) (evaluation : PolicyEvaluation) (t : Time)
      → status_changed action.status (decided_status env.spec_digest action evaluation t) ≡ false
      → IsDecided env.spec_digest (phase_of evaluation.decision.action) action
  unchanged action evaluation t h =
      subst
        (λ s.
          IsDecided env.spec_digest (phase_of evaluation.decision.action)
            (record action { status = s }))
        (sym (status_unchanged_eq _ _ h))
        (decided_status-IsDecided env.spec_digest action evaluation t)

  record_action_traced :
      (action : AgentAction) (evaluation : PolicyEvaluation) (t : Time)
      → Triple
          (In env start (applied action))
          (record_action env action evaluation t)
          (λ _. In env start (stored (phase_of evaluation.decision.action)))
          (Out env start)
  unfolding record_action save_action
  record_action_traced action evaluation t =
      let status = decided_status env.spec_digest action evaluation t in
      let phase = phase_of evaluation.decision.action in
      let holds = decided_status-IsDecided env.spec_digest action evaluation t in
      Triple-if (status_changed action.status status)
        (λ c.
          Triple-bind
            (Triple-bind (Triple-query _) (λ r.
              Triple-bind (Triple-or_fail _ (reached env start _)) (λ s.
                Triple-bind (Triple-write _ (λ log h. later h (store action _ phase refl holds)))
                  (λ u. Triple-pure s (λ log t. t)))))
            (λ u. announced phase _ _))
        (λ c. Triple-pure _ (λ log h. silently phase h (unchanged action evaluation t c)))

  record_plan_traced :
      (plan : RemediationPlan) (status : RemediationPlanStatus) (phase : String)
      → status.phase ≡ phase
      → phase ≢ ""
      → Triple
          (In env start (stored phase))
          (record_plan env plan status)
          (λ _. Out env start)
          (Out env start)
  unfolding record_plan save_plan
  record_plan_traced plan status phase h ne =
      Triple-if (plan_status_changed env.same_instant plan.status status)
        (λ c. Triple-bind (Triple-query _) (λ r.
          Triple-bind (Triple-or_fail _ (reached env start _))
            (λ s. Triple-write _ (λ log t. reached env start _ _ (later t (decide _ phase h ne))))))
        (λ c. Triple-pure _ (reached env start _))

  record_decision_traced :
      (plan : RemediationPlan) (action : AgentAction) (evaluation : PolicyEvaluation)
      → Triple
          (In env start (applied action))
          (record_decision env plan action evaluation)
          (λ _. Out env start)
          (Out env start)
  unfolding record_decision plan_status set_resource_status
  record_decision_traced plan action evaluation = Triple-bind (Triple-query _) (λ t.
      Triple-bind (finish_time_traced _ _ t) (λ f. Triple-bind (Triple-query _) (λ r.
        Triple-bind (record_action_traced action evaluation r) (λ u.
          Triple-bind
            (record_plan_traced plan _ (phase_of evaluation.decision.action) refl
              (phase_of-ne-empty evaluation.decision.action))
            (λ v. Triple-pure _ (λ log t. t))))))

  decide_traced :
      (plan : RemediationPlan)
      → Triple (In env start fresh) (Reconcile.decide env plan) (λ _. Out env start) (Out env start)
  unfolding Reconcile.decide evaluate_policy
  decide_traced plan = Triple-bind (admit_traced env start plan) (λ admitted.
      Triple-bind (evaluate_with_traced admitted env.policy_engine) (λ evaluation.
        Triple-bind (apply_action_traced admitted evaluation)
          (λ action. record_decision_traced admitted action evaluation)))

  proceed_traced :
      (plan : RemediationPlan)
      → Triple (In env start fresh) (proceed env plan) (λ _. Out env start) (Out env start)
  unfolding proceed
  proceed_traced plan =
      Triple-if (plan.status.phase != "") (λ c. Triple-pure _ (reached env start fresh))
        (λ c. decide_traced plan)

  reconcile_traced :
      (key : Key)
      → Triple (In env start fresh) (reconcile env key) (λ _. Out env start) (Out env start)
  unfolding reconcile
  reconcile_traced key = Triple-bind (Triple-query _) (λ r.
      Triple-bind (Triple-or_ignore _ (reached env start fresh)) (λ plan. proceed_traced plan))

ends_reached :
    {A : Type 0} (P : List Effect → Type 0) (r : Step A) (log : List Effect)
    → Ends (λ _. P) P r log
    → P log
ends_reached P (next a) log h = h
ends_reached P (exit o) log h = h

module _ {W : Type 0} (env : Env W) where
  -- A run over a plan, however it ends, adds to the log what the protocol allows: first the
  -- defaults of the namespace, if any; then a rejection for its thresholds, or the action; then the
  -- action's status, whose approval holds the digest of the action's content; and only then the
  -- plan's status, with the same phase.
  pub reconcile-IsReached :
      (key : Key) (s : State W) → IsReached env.spec_digest s.log (reconcile env key s).1.log
  reconcile-IsReached key s =
      ends_reached (IsReached env.spec_digest s.log) (reconcile env key s).0 _
        ((reconcile_traced env s.log key).at s begin)
