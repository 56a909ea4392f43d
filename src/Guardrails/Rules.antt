-- ===== src/Guardrails/Rules.antt =====
-- Which rule of a policy decides (`evaluatePolicy`).
use fluxseer_rca.Base.{
  ◌≤◌, ◌<◌, String, Option, none, some, true, false, ◌==◌, ◌≡◌, refl, ◌↔◌, ◌⊎◌, inl, inr, arith,
  Char, All, eq_iff, find, IsFirstPassing, find-IsFirstPassing, find-none,
}
use fluxseer_rca.Api.Policy.{ActionTypeRule, SeverityRule, ApprovalPolicy}
use fluxseer_rca.Domain.{auto_approve}
use fluxseer_rca.Guardrails.Policy.{
  PolicyReviewInput, normalize_severity, policy_severity_rank, severity_in_range,
  decision_from_rule, rule_decision, fits_action, fits_severity, evaluate_policy,
}

-- A severity lies in a rule's range exactly when its rank is known, and each bound that is given
-- has a known rank on the right side of it.
pub severity_in_range_iff :
    (beyond : Char → Char) (value minimum maximum : String)
    → let rank = policy_severity_rank beyond in
      (severity_in_range beyond value minimum maximum ≡ true) ↔ (
        (0 < rank value)
        × (((minimum == "") ≡ true) ⊎ (0 < rank minimum) × (rank minimum ≤ rank value))
        × (((maximum == "") ≡ true) ⊎ (0 < rank maximum) × (rank value ≤ rank maximum)))
unfolding severity_in_range
severity_in_range_iff beyond value minimum maximum =
    (λ h. (ground arith, ground arith, ground arith), λ h. ground arith)

decision_from_rule_auto :
    (quote : String → String) (action reason fallback : String)
    → (decision_from_rule quote action reason fallback).action ≡ auto_approve
    → action ≡ "auto"
unfolding decision_from_rule
decision_from_rule_auto quote action reason fallback h = ground (arith, eq_iff action "auto")

-- A rule of the policy that asks for automatic approval and is the first that fits: a rule for the
-- action's type, or, where none of those fits, a rule for its severity.
abbrev pub AutoRule : (Char → Char) → ApprovalPolicy → PolicyReviewInput → Type 0
AutoRule beyond policy input =
    let by_type = fits_action input.reasoning.remediation.action_type in
    let by_severity = fits_severity beyond (normalize_severity beyond input.reasoning.severity) in
    ((rule : ActionTypeRule) × IsFirstPassing by_type policy.spec.action_type_rules rule
      × (rule.action ≡ "auto"))
    ⊎ ((rule : SeverityRule) × All (λ r. by_type r ≡ false) policy.spec.action_type_rules
        × IsFirstPassing by_severity policy.spec.severity_rules rule
        × (rule.action ≡ "auto"))

rule_decision_auto :
    (quote : String → String) (beyond : Char → Char) (policy : ApprovalPolicy)
    (input : PolicyReviewInput) (a : Option ActionTypeRule) (s : Option SeverityRule)
    → find (fits_action input.reasoning.remediation.action_type) policy.spec.action_type_rules ≡ a
    → find
        (fits_severity beyond (normalize_severity beyond input.reasoning.severity))
        policy.spec.severity_rules
      ≡ s
    → (rule_decision quote policy.spec.default_approval_timeout a s).0.action ≡ auto_approve
    → AutoRule beyond policy input
unfolding rule_decision
rule_decision_auto quote beyond policy input (some rule) s e k h =
    inl (rule, find-IsFirstPassing _ _ e, decision_from_rule_auto quote _ _ _ h)
rule_decision_auto quote beyond policy input none (some rule) e k h =
    inr (rule, find-none _ _ e, find-IsFirstPassing _ _ k, decision_from_rule_auto quote _ _ _ h)
rule_decision_auto quote beyond policy input none none e k h = cc

-- A policy approves an action automatically only by such a rule: a policy with no rule that fits,
-- or whose first fitting rule says anything else, never does.
pub evaluate_policy_auto :
    (quote : String → String) (beyond : Char → Char) (policy : ApprovalPolicy)
    (input : PolicyReviewInput)
    → (evaluate_policy quote beyond policy input).0.action ≡ auto_approve
    → AutoRule beyond policy input
unfolding evaluate_policy
evaluate_policy_auto quote beyond policy input h =
    rule_decision_auto quote beyond policy input _ _ refl refl h
