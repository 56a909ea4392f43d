-- ===== src/Tests/Limits.antt =====
-- The limits of a namespace on a concrete input.
use fluxseer_rca.Base.{[], ◌∷◌, none, some, true, false, ◌≡◌, refl, ◌↔◌, pos, sort_stable}
use fluxseer_rca.Api.Meta.{ok, Selects}
use fluxseer_rca.Api.Policy.{NamespaceThreshold}
use fluxseer_rca.Thresholds.Enforcer.{
  ThresholdRequest, Usage, EnforcementResult, threshold_reference, violations_of,
  enforce_resolution, is_enforced, match_threshold, collect_thresholds, selected_resolution,
  stands_before, resolve_threshold, evaluate_usage,
}
use fluxseer_rca.Thresholds.Limits.{Complies, evaluate_usage-Complies_iff}
use fluxseer_rca.Tests.Worlds.{named_object}

abbrev two_plans : NamespaceThreshold
two_plans = record {
  meta = named_object "shop" "limits" "uid-limits" [];
  spec = record {
    namespace_selector = none;
    active_plans_limit = pos 2;
    pending_approvals_limit = pos 0;
    default_ttl_seconds = pos 0;
    default_approval_timeout_seconds = pos 0;
    protection_level = "";
    priority = pos 1;
    enabled = true;
  };
  status = record { phase = "Active" };
}

abbrev any_label : Selects
any_label = λ selector labels. ok true

abbrev shop : ThresholdRequest
shop = record { namespace = "shop"; namespace_labels = [] }

abbrev three_plans : Usage
three_plans = record { active_plans = pos 3; pending_approvals = pos 7 }

abbrev refused : EnforcementResult
refused = record {
  allowed = false;
  violations =
      (record {
        resource = "activePlans";
        current = pos 3;
        limit = pos 2;
        reason = "active RemediationPlan count exceeds namespace threshold";
      })
      ∷ [];
  resolution = some (record {
    threshold = two_plans;
    reference = threshold_reference two_plans "DirectNamespace";
  });
}

usage_refused : evaluate_usage any_label (some (ok (two_plans ∷ []))) shop three_plans ≡ ok refused
unfolding evaluate_usage resolve_threshold collect_thresholds is_enforced match_threshold
    sort_stable stands_before selected_resolution enforce_resolution violations_of
usage_refused = refl

evaluate_usage-Complies_iff_example :
    (refused.allowed ≡ true) ↔ Complies three_plans refused.resolution
evaluate_usage-Complies_iff_example =
    evaluate_usage-Complies_iff any_label (some (ok (two_plans ∷ []))) shop three_plans refused
      usage_refused
