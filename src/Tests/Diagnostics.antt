-- ===== src/Tests/Diagnostics.antt =====
-- The diagnostics on concrete evidence.
use fluxseer_rca.Base.{
  String, List, [], ◌∷◌, Option, none, some, true, false, ◌≡◌, ◌↔◌, refl, pos, Char, All,
  IsDistinct, has_text, map, has_any_part, has_part, to_lower, trim_space, join, sorted_set,
  sort_stable,
}
use mathlib.Core.List.{Memᴰ}
use fluxseer_rca.Diagnostic.Types.{SchedulingObservation, status_supported}
use fluxseer_rca.Diagnostic.Evidence.{Diagnostic}
use fluxseer_rca.Diagnostic.Scheduling.Supported.{IsDrawnFrom}
use fluxseer_rca.Diagnostic.Scheduling.Evaluate.{evaluate, claim_before, survey_all, unsurveyed}
use fluxseer_rca.Diagnostic.Candidates.{unique_strings}
use fluxseer_rca.Controllers.Effectiveness.{equal_fold}
use fluxseer_rca.Diagnostic.Scheduling.{
  skip_reason, scheduling_evidence_refs, is_unschedulable, event_text, condition_text, warned,
  append_claim, append_claims, scheduling_candidates, event_matches_pod,
}
use fluxseer_rca.Diagnostic.Scheduling.Verdict.{IsReport, evaluate-Supported_iff, evaluate-IsDrawn}
use fluxseer_rca.Diagnostic.Planner.{key_of, new_planner, scheduling_diagnostic}
use fluxseer_rca.Diagnostic.Planner.Registry.{keys_of, new_planner-IsRegistry}
use fluxseer_rca.Diagnostic.ServicePort.{service_port_diagnostic}

quoted : String → String
quoted s = s

same_char : Char → Char
same_char c = c

abbrev pending_pod : SchedulingObservation
pending_pod = record {
  id = "s-1";
  pod_uid = "uid-1";
  pod_namespace = "shop";
  pod_name = "cart-1";
  source = "kubernetes";
  event_pod_uid = "uid-1";
  phase = "Pending";
  node_name = "";
  pod_scheduled_status = "False";
  pod_scheduled_reason = "Unschedulable";
  pod_scheduled_message = "0/3 nodes are available: 3 Insufficient memory.";
  scheduling_gates = [];
  event_reason = "";
  event_message = "";
  evidence_refs = "e-1" ∷ [];
  collected_at = pos 7;
  incident_start = pos 0;
  incident_end = pos 0;
  coverage = "Complete";
  coverage_reason = "";
  state_collected = true;
  truncated = false;
  stale = false;
}

abbrev unknown_pod : SchedulingObservation
unknown_pod = record pending_pod { pod_uid = " " }

abbrev observed : List SchedulingObservation
observed = unknown_pod ∷ pending_pod ∷ []

evaluate_test :
    map (λ c. c.id) (evaluate quoted same_char observed).claims
    ≡ "scheduling-observation-unassigned/uid-1" ∷ "scheduling-mechanism-unschedulable/uid-1"
      ∷ "scheduling-cause-insufficient-memory/uid-1" ∷ []
unfolding evaluate claim_before survey_all skip_reason sort_stable sorted_set trim_space to_lower
    join has_any_part has_part unsurveyed same_char quoted unique_strings scheduling_evidence_refs
    is_unschedulable event_text condition_text equal_fold warned append_claim append_claims
    scheduling_candidates event_matches_pod
evaluate_test = refl

evaluate-Supported_iff_example :
    ((evaluate quoted same_char observed).status ≡ status_supported)
    ↔ ((o : SchedulingObservation) × Memᴰ o observed × IsReport same_char o)
evaluate-Supported_iff_example = evaluate-Supported_iff quoted same_char observed

evaluate-IsDrawn_example :
    All
      (λ c. (o : SchedulingObservation) × Memᴰ o observed × IsDrawnFrom same_char o c)
      (evaluate quoted same_char observed).claims
evaluate-IsDrawn_example = evaluate-IsDrawn quoted same_char observed

abbrev registered : List (Option Diagnostic)
registered =
    some service_port_diagnostic
    ∷ none
    ∷ some (scheduling_diagnostic quoted same_char)
    ∷ some service_port_diagnostic
    ∷ []

new_planner-IsRegistry_example :
    IsDistinct (map key_of (new_planner registered))
    × ((key : String)
        → has_text key (map key_of (new_planner registered)) ≡ has_text key (keys_of registered))
new_planner-IsRegistry_example = new_planner-IsRegistry registered
