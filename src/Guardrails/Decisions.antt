-- ===== src/Guardrails/Decisions.antt =====
-- What `Engine.Evaluate` decides on each of its branches.
use fluxseer_rca.Base.{
  ◌≤◌, ◌<◌, String, true, false, ◌&&◌, ◌==◌, ◌≡◌, ◌↔◌, ◌⊎◌, inl, inr, Bool-cases, leb, leb→le,
  arith,
}
use fluxseer_rca.Domain.{
  auto_approve, needs_approval, reject, severity_low, severity_medium, severity_high,
  severity_unsafe,
}
use fluxseer_rca.Guardrails.Engine.{
  Policy, ReviewInput, contains, severity_rank, auto_approve_max, approval_min, evaluate,
}

unsafe_facts :
    (s : String)
    → s ≡ severity_unsafe
    → (severity_rank s ≡ 4) × ((s == severity_high) ≡ false) × ((s == severity_unsafe) ≡ true)
unfolding severity_rank
unsafe_facts s e = (rw e, rw e, rw e)

-- None of the four severities.
abbrev pub IsUnknown : String → Type 0
IsUnknown s =
    ((s == severity_low) ≡ false)
    × ((s == severity_medium) ≡ false)
    × ((s == severity_high) ≡ false)
    × ((s == severity_unsafe) ≡ false)

unknown_rank : (s : String) → IsUnknown s → severity_rank s ≡ 99
unfolding severity_rank
unknown_rank s u = ground arith

rank_le : (s : String) → severity_rank s ≤ 99
unfolding severity_rank
rank_le s = ground arith

rank-IsUnknown : (s : String) → 99 ≤ severity_rank s → IsUnknown s
unfolding severity_rank
rank-IsUnknown s h = (ground arith, ground arith, ground arith, ground arith)

module _ (quote : String → String) (policy : Policy) (input : ReviewInput) where
  open input use {resource, reasoning}

  -- An action is approved without a human exactly when its type is on the allowlist, it is no
  -- high-severity action against a protected namespace, and the rank of its severity is at most
  -- that of the configured limit ("low" where none is configured).
  pub evaluate-auto_iff : ((evaluate quote policy input).action ≡ auto_approve) ↔ (
      (contains policy.allowed_action_types reasoning.remediation.action_type ≡ true)
      × ((contains policy.protected_namespaces resource.namespace
            && reasoning.severity == severity_high)
          ≡ false)
      × (severity_rank reasoning.severity ≤ severity_rank (auto_approve_max policy)))
  unfolding evaluate
  evaluate-auto_iff = (λ h. (ground arith, ground arith, ground arith), λ h. ground arith)

  -- An action whose type is not on the allowlist is rejected, whatever its severity.
  pub evaluate_unlisted :
      contains policy.allowed_action_types reasoning.remediation.action_type ≡ false
      → (evaluate quote policy input).action ≡ reject
  unfolding evaluate
  evaluate_unlisted h = ground arith

  -- An action of severity "unsafe" is rejected, whatever else the policy says, as long as the
  -- configured limit for automatic approval ranks below "unsafe".
  pub evaluate_unsafe :
      severity_rank (auto_approve_max policy) < 4
      → reasoning.severity ≡ severity_unsafe
      → (evaluate quote policy input).action ≡ reject
  unfolding evaluate
  evaluate_unsafe h e = ground (arith, unsafe_facts reasoning.severity e)

  known_limit :
      contains policy.allowed_action_types reasoning.remediation.action_type ≡ true
      → IsUnknown reasoning.severity
      → leb 99 (severity_rank (auto_approve_max policy)) ≡ false
      → (evaluate quote policy input).action ≡ needs_approval
  unfolding evaluate
  known_limit listed u k =
      ground (arith, unknown_rank reasoning.severity u, rank_le (approval_min policy))

  unknown_limit :
      contains policy.allowed_action_types reasoning.remediation.action_type ≡ true
      → IsUnknown reasoning.severity
      → leb 99 (severity_rank (auto_approve_max policy)) ≡ true
      → (evaluate quote policy input).action ≡ auto_approve
  unfolding evaluate
  unknown_limit listed u k = ground (arith, unknown_rank reasoning.severity u)

  -- An allowlisted action whose severity is none of the four known ones is never rejected: it waits
  -- for a human if the limit for automatic approval ("low" where none is configured) is a known
  -- severity, and is approved automatically if that limit is unknown too.
  pub evaluate-IsUnknown :
      contains policy.allowed_action_types reasoning.remediation.action_type ≡ true
      → IsUnknown reasoning.severity
      → (((evaluate quote policy input).action ≡ needs_approval)
          × ¬ IsUnknown (auto_approve_max policy))
        ⊎ (((evaluate quote policy input).action ≡ auto_approve)
            × IsUnknown (auto_approve_max policy))
  evaluate-IsUnknown listed u =
      elim (Bool-cases (leb 99 (severity_rank (auto_approve_max policy)))) [
        | inl k ↦ inr (unknown_limit listed u k, rank-IsUnknown _ (leb→le _ _ k))
        | inr k ↦ inl (known_limit listed u k, λ v. cc (rw (unknown_rank _ v) at k))
      ]
