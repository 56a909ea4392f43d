-- ===== src/Guardrails/AutoApproval.antt =====
-- What stands behind an automatic approval of `PolicyEngine.Evaluate`.
use fluxseer_rca.Base.{
  String, List, Option, none, some, ◌≡◌, refl, sym, subst, ◌⊎◌, inl, inr, Char, Bool-cases,
}
use fluxseer_rca.Api.Meta.{Result, ok, err, Selects, >>=-eq-ok, ok-injective}
use fluxseer_rca.Api.Policy.{ApprovalPolicy}
use fluxseer_rca.Domain.{auto_approve}
use fluxseer_rca.Guardrails.Engine
use fluxseer_rca.Guardrails.Engine.{Policy}
use fluxseer_rca.Guardrails.Policy.{
  PolicyReviewInput, PolicyEvaluation, PolicyEngine, PolicyMatch, select_approval_policy,
}
use fluxseer_rca.Guardrails.Resolve.{
  policy_reference, legacy_decision, evaluate_legacy, evaluate_selected, evaluate_listed, evaluate,
}
use fluxseer_rca.Guardrails.Rules.{AutoRule, evaluate_policy_auto}
use fluxseer_rca.Guardrails.Selection.{Applies, select_approval_policy-best}

module _ (quote : String → String) (beyond : Char → Char) (selects : Selects)
    (engine : PolicyEngine) (input : PolicyReviewInput) where
  -- The legacy guardrails approved.
  pub record ByLegacy (ev : PolicyEvaluation) : Type 0 where
    pub guardrails : Policy
    pub configured : engine.legacy ≡ some guardrails
    pub approved : (Engine.evaluate quote guardrails input.review).action ≡ auto_approve
    pub unreferenced : ev.policy ≡ none

  -- An active policy of the cluster that matches has a rule that approves, and is recorded.
  pub record ByPolicy (ev : PolicyEvaluation) : Type 0 where
    pub policies : List ApprovalPolicy
    pub matched : PolicyMatch
    pub read : engine.reader ≡ some (ok policies)
    pub applies : Applies selects input policies matched
    pub rule : AutoRule beyond matched.policy input
    pub referenced : ev.policy ≡ some (policy_reference matched.policy matched.level)

  legacy_auto :
      (legacy : Option Policy)
      → engine.legacy ≡ legacy
      → (legacy_decision quote legacy input.review).action ≡ auto_approve
      → ByLegacy (evaluate_legacy quote engine input)
  unfolding legacy_decision evaluate_legacy
  legacy_auto none e h = cc
  legacy_auto (some p) e h = record {
    guardrails = p;
    configured = e;
    approved = h;
    unreferenced = refl;
  }

  fallback_auto :
      (evaluate_legacy quote engine input).decision.action ≡ auto_approve
      → ByLegacy (evaluate_legacy quote engine input)
  unfolding evaluate_legacy
  fallback_auto h = legacy_auto engine.legacy refl h

  abbrev pub Backed : PolicyEvaluation → Type 0
  Backed ev = ByLegacy ev ⊎ ByPolicy ev

  selected_auto :
      (policies : List ApprovalPolicy) (o : Option PolicyMatch)
      → engine.reader ≡ some (ok policies)
      → select_approval_policy selects policies input ≡ ok o
      → (evaluate_selected quote beyond selects engine input o).decision.action ≡ auto_approve
      → Backed (evaluate_selected quote beyond selects engine input o)
  unfolding evaluate_selected
  selected_auto policies none read e h = inl (fallback_auto h)
  selected_auto policies (some m) read e h = inr (record {
    policies = policies;
    matched = m;
    read = read;
    applies = (select_approval_policy-best selects input policies m e).0;
    rule = evaluate_policy_auto quote beyond m.policy input h;
    referenced = refl;
  })

  listed_auto :
      (reader : Option (Result (List ApprovalPolicy))) (ev : PolicyEvaluation)
      → engine.reader ≡ reader
      → evaluate_listed quote beyond selects engine input reader ≡ ok ev
      → ev.decision.action ≡ auto_approve
      → Backed ev
  unfolding evaluate_listed
  listed_auto none ev r e h = cc
  listed_auto (some (err x)) ev r e h = cc
  listed_auto (some (ok policies)) ev r e h =
      let (o, selected, e') = >>=-eq-ok (select_approval_policy selects policies input) _ e in
      let same = ok-injective e' in
      subst Backed same (
        selected_auto policies o r selected
          (subst (λ v. v.decision.action ≡ auto_approve) (sym same) h))

  -- An automatic approval has one of two grounds. Either the legacy guardrails are configured and
  -- approve, and the evaluation refers to no policy; or the policies were listed, an active one of
  -- them matches the input, its first rule that fits asks for approval, and the evaluation refers
  -- to that policy.
  pub evaluate-Backed :
      (ev : PolicyEvaluation)
      → evaluate quote beyond selects engine input ≡ ok ev
      → ev.decision.action ≡ auto_approve
      → Backed ev
  unfolding evaluate evaluate_selected evaluate_legacy
  evaluate-Backed ev e h = elim (Bool-cases engine.enabled) [
    | inl on ↦ listed_auto engine.reader ev refl (rw on at e) h
    | inr off ↦
        let same = ok-injective (rw off at e) in
        subst Backed same
          (inl (fallback_auto (subst (λ v. v.decision.action ≡ auto_approve) (sym same) h)))
  ]
