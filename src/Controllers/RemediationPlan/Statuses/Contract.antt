-- ===== src/Controllers/RemediationPlan/Statuses/Contract.antt =====
-- What the statuses of a decision mean to the controller of AgentActions.
use Prim.Native.Char.{code}
use text.Mathlib.TextLemmas.{cons-append}
use fluxseer_rca.Base.{
  List, Char, sym, ◌∙◌, inl, inr, Bool-cases, some-injective, ℕ, ap, ne→str_ne, arith, is_none,
  ◌&&◌, String, Option, none, some, Bool, true, false, ◌==◌, ◌!=◌, ◌≡◌, refl, eq→str_eq, ◌+++◌,
}
use fluxseer_rca.Api.Meta.{
  Time, Selects, Result, ok, err, >>=-eq-ok, ok-injective, set_resource_status,
}
use fluxseer_rca.Api.Policy.{ApprovalPolicy}
use fluxseer_rca.Guardrails.Resolve.{
  policy_reference, evaluate_legacy, evaluate_selected, evaluate_listed, evaluate,
}
use fluxseer_rca.Api.Action.{AgentAction, AgentActionSpec}
use fluxseer_rca.Domain.{ApprovalAction, auto_approve, needs_approval, reject}
use fluxseer_rca.Guardrails.Policy.{
  PolicyEvaluation, PolicyReference, PolicyEngine, PolicyReviewInput, PolicyMatch,
  select_approval_policy,
}
use fluxseer_rca.Controllers.AgentAction.Approval.{
  spec_digest_of, is_approved_by, is_agent_action_approved, source_manual_required,
}
use fluxseer_rca.Controllers.RemediationPlan.Derive.{approval_source, source_of}
use fluxseer_rca.Controllers.RemediationPlan.Statuses.{
  phase_of, source_for, approval_record, decided_status, source_rejected,
}
use fluxseer_rca.Controllers.RemediationPlan.Protocol.{IsDecided}

-- The action with the decision in its status, and later with a human's name in its spec.
abbrev pub decided_by_human :
    (AgentActionSpec → String) → AgentAction → PolicyEvaluation → Time → String → AgentAction
decided_by_human digest action evaluation recorded name = record action {
  spec = record action.spec { approved_by = name };
  status = decided_status digest action evaluation recorded;
}

-- Who is honoured, for each decision.
abbrev pub approves : ApprovalAction → Option PolicyReference → String → Bool
approves auto_approve policy name = true
approves needs_approval policy name = is_none policy && name != ""
approves reject policy name = false

module _ (digest : AgentActionSpec → String) (action : AgentAction) (evaluation : PolicyEvaluation)
    (recorded : Time) where
  pub decided_status-IsDecided :
      IsDecided digest
        (phase_of evaluation.decision.action)
        (record action { status = decided_status digest action evaluation recorded })
  unfolding spec_digest_of decided_status set_resource_status
  decided_status-IsDecided = record {
    approval = approval_record action (spec_digest_of digest action) evaluation recorded;
    holds = refl;
    content = refl;
    visible = refl;
  }

head_code : String → ℕ
head_code String.[] = 0
head_code (String.◌∷◌ c s) = code c

head_of_source : (rest : String) → head_code ("ApprovalPolicy" +++ rest) ≡ 65
unfolding head_code
head_of_source rest = ap head_code (cons-append "A" "pprovalPolicy" rest)

-- The source of a policy's decision is not that of the guardrails'.
crd_source_ne : (rest : String) → ("ApprovalPolicy" +++ rest == source_manual_required) ≡ false
unfolding head_code
crd_source_ne rest = ne→str_ne _ _ (λ e. omega (arith, ap head_code e, head_of_source rest))

needed : (b c : Bool) → ((b && true) && c) ≡ (b && c)
needed true c = refl
needed false c = refl

refused : (b c : Bool) → ((b && false) && c) ≡ false
refused true c = refl
refused false c = refl

module _ (spec : AgentActionSpec) (digest : String) (action : AgentAction)
    (evaluation : PolicyEvaluation) (recorded : Time) where
  honoured_source :
      (policy : Option PolicyReference) (fallback : String)
      → ((p : PolicyReference) → policy ≡ some p → p.kind ≡ "ApprovalPolicy")
      → (source_of policy fallback == source_manual_required)
        ≡ (is_none policy && fallback == source_manual_required)
  unfolding source_of
  honoured_source none fallback named = refl
  honoured_source (some p) fallback named = rw (named p refl) (crd_source_ne _)

  approved_by_decision :
      (a : ApprovalAction)
      → evaluation.decision.action ≡ a
      → ((p : PolicyReference) → evaluation.policy ≡ some p → p.kind ≡ "ApprovalPolicy")
      → is_approved_by digest spec (some (approval_record action digest evaluation recorded))
        ≡ approves a evaluation.policy spec.approved_by
  unfolding is_approved_by approval_record source_for approval_source
  approved_by_decision auto_approve h named = rw (eq→str_eq digest digest refl, h) refl
  approved_by_decision needs_approval h named =
      rw
        (
          eq→str_eq digest digest refl,
          h,
          honoured_source evaluation.policy source_manual_required named,
        )
        (needed (is_none evaluation.policy) (spec.approved_by != ""))
  approved_by_decision reject h named =
      rw (eq→str_eq digest digest refl, h, honoured_source evaluation.policy source_rejected named)
        (refused (is_none evaluation.policy) (spec.approved_by != ""))

module _ (quote : String → String) (beyond : Char → Char) (selects : Selects)
    (engine : PolicyEngine) (input : PolicyReviewInput) (evaluation : PolicyEvaluation) where
  selected_kind :
      (m : Option PolicyMatch) (p : PolicyReference)
      → (evaluate_selected quote beyond selects engine input m).policy ≡ some p
      → p.kind ≡ "ApprovalPolicy"
  unfolding evaluate_selected evaluate_legacy policy_reference
  selected_kind none p h = cc
  selected_kind (some m) p h = ap (λ (r : PolicyReference). r.kind) (sym (some-injective h))

  listed_kind :
      (reader : Option (Result (List ApprovalPolicy))) (p : PolicyReference)
      → evaluate_listed quote beyond selects engine input reader ≡ ok evaluation
      → evaluation.policy ≡ some p
      → p.kind ≡ "ApprovalPolicy"
  unfolding evaluate_listed
  listed_kind none p e h = cc
  listed_kind (some (err x)) p e h = cc
  listed_kind (some (ok policies)) p e h =
      let (m, selected, e') = >>=-eq-ok (select_approval_policy selects policies input) _ e in
      selected_kind m p (ap (λ (v : PolicyEvaluation). v.policy) (ok-injective e') ∙ h)

  evaluate_kind :
      (p : PolicyReference)
      → evaluate quote beyond selects engine input ≡ ok evaluation
      → evaluation.policy ≡ some p
      → p.kind ≡ "ApprovalPolicy"
  unfolding evaluate evaluate_legacy evaluate_selected
  evaluate_kind p e h = elim (Bool-cases engine.enabled) [
    | inl on ↦ listed_kind engine.reader p (rw on at e) h
    | inr off ↦ cc (ap (λ (v : PolicyEvaluation). v.policy) (ok-injective (rw off at e)) ∙ h)
  ]

  -- After a decision of the policy engine is stored in an action, and whatever a human then writes
  -- into spec.approvedBy, the controller of actions holds the action for approved exactly so: an
  -- automatic decision always, a rejection never, and a decision that asks for a human where it
  -- came from the legacy guardrails and the name is not empty. A decision by an ApprovalPolicy that
  -- asks for a human is thus never honoured.
  pub decided_status-approves :
      (digest : AgentActionSpec → String) (action : AgentAction) (recorded : Time) (name : String)
      → evaluate quote beyond selects engine input ≡ ok evaluation
      → is_agent_action_approved digest (decided_by_human digest action evaluation recorded name)
        ≡ approves evaluation.decision.action evaluation.policy name
  unfolding is_agent_action_approved decided_status spec_digest_of
  decided_status-approves digest action recorded name e =
      approved_by_decision (record action.spec { approved_by = name })
        (spec_digest_of digest action) action evaluation recorded evaluation.decision.action refl
        (λ p h. evaluate_kind p e h)
