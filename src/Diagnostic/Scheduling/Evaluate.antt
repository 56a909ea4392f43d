-- ===== src/Diagnostic/Scheduling/Evaluate.antt =====
-- `SchedulingDiagnostic.Evaluate` (internal/diagnostic/scheduling.go).
use fluxseer_rca.Base.{
  ℕ, String, List, [], ◌∷◌, Option, none, some, Bool, true, false, not, ◌&&◌, ◌||◌, ◌==◌, ◌!=◌,
  Char, trim_space, if◌then◌else◌, ◌+++◌, ◌++◌, pos, itoa, length, eqb, ltb, str_lt, sort_stable,
  ascending_text,
}
use fluxseer_rca.Diagnostic.Types.{
  CandidateClaim, SchedulingObservation, Requirement, DiagnosticResult, claim_observation,
  claim_failure_mechanism, claim_root_cause, status_supported, status_inconclusive,
  status_not_applicable,
}
use fluxseer_rca.Diagnostic.Scheduling.{
  Survey, skip_reason, claim_of, append_claim, append_claims, warned, event_text, condition_text,
  is_unschedulable, scheduling_candidates,
}

unfoldable pub survey_node : Survey → SchedulingObservation → Survey
survey_node s o =
    if trim_space o.node_name == ""
    then append_claim (record s { valid_state = true; observed_unassigned = true })
        (claim_of o "scheduling-observation-unassigned/" claim_observation
          "The Pod has not been assigned to a Node.")
    else record s { valid_state = true; assigned_pod = true }

unfoldable pub survey_gates : Survey → SchedulingObservation → List String → Survey
survey_gates s o [] = s
survey_gates s o (g ∷ gates) =
    append_claim (record s { observed_gate = true })
      (claim_of o "scheduling-mechanism-gated/" claim_failure_mechanism
        "The Pod is blocked by an active scheduling gate.")

module _ (beyond : Char → Char) where
  unfoldable pub survey_failure : Survey → SchedulingObservation → Survey
  survey_failure s o =
      if is_unschedulable beyond o
      then append_claims (record s { observed_failure = true })
          (claim_of o "scheduling-mechanism-unschedulable/" claim_failure_mechanism
              "The scheduler reported that the Pod could not be scheduled."
            ∷ scheduling_candidates beyond o
                (event_text beyond o +++ " " +++ condition_text beyond o))
      else s

module _ (quote : String → String) (beyond : Char → Char) where
  -- The gates and the failure, of an observation that is not truncated.
  unfoldable pub survey_blocks : Survey → SchedulingObservation → Bool → Survey
  unfolding survey_gates survey_failure
  survey_blocks s o true =
      warned s
        ("scheduling evidence for Pod UID " +++ quote (trim_space o.pod_uid) +++ " was truncated")
  survey_blocks s o false = survey_failure beyond (survey_gates s o o.scheduling_gates) o

  unfoldable pub survey_state : Survey → SchedulingObservation → Survey
  unfolding survey_node survey_blocks
  survey_state s o = survey_blocks (survey_node s o) o o.truncated

  unfoldable pub survey_observation : Survey → SchedulingObservation → Option String → Survey
  unfolding survey_state
  survey_observation s o (some w) = warned s w
  survey_observation s o none = survey_state s o

  unfoldable pub survey_all : Survey → List SchedulingObservation → Survey
  unfolding survey_observation
  survey_all s [] = s
  survey_all s (o ∷ os) = survey_all (survey_observation s o (skip_reason quote o)) os

unfoldable pub unsurveyed : Survey
unsurveyed = record {
  claims = [];
  warnings = [];
  valid_state = false;
  observed_failure = false;
  observed_gate = false;
  observed_unassigned = false;
  assigned_pod = false;
}

-- `Requirements`.
abbrev pub state_requirement : Requirement
state_requirement = record {
  id = "scheduling-pod-state";
  capability = "";
  description = "target-scoped Pod scheduling state with a Pod UID";
  required = true;
}

abbrev pub failure_requirement : Requirement
failure_requirement = record {
  id = "scheduling-failure-evidence";
  capability = "event";
  description = "correlated PodScheduled or FailedScheduling evidence";
  required = false;
}

unfoldable pub status_of : Survey → String
status_of s =
    if s.observed_failure || s.observed_gate
    then status_supported
    else if not s.valid_state || (s.observed_unassigned || not s.assigned_pod)
    then status_inconclusive
    else status_not_applicable

abbrev missing_of : Survey → List Requirement
missing_of s = if status_of s == status_inconclusive then failure_requirement ∷ [] else []

abbrev final_warnings : Survey → List String
final_warnings s =
    if not s.observed_failure && (s.observed_unassigned && not s.observed_gate)
    then s.warnings ++ "Pod is unassigned but no scheduling failure evidence was collected" ∷ []
    else s.warnings

unfoldable pub priority : String → ℕ
priority type =
    if type == claim_observation
    then 0
    else if type == claim_failure_mechanism
    then 1
    else if type == claim_root_cause
    then 2
    else 3

-- The order of `sortSchedulingClaims`.
unfoldable pub claim_before : CandidateClaim → CandidateClaim → Bool
unfolding priority
claim_before a b =
    if not (eqb (priority a.type) (priority b.type))
    then ltb (priority a.type) (priority b.type)
    else if a.target_uid != b.target_uid
    then str_lt a.target_uid b.target_uid
    else str_lt a.id b.id

unfoldable pub concluded : Survey → ℕ → DiagnosticResult
concluded s count = record {
  diagnostic_id = "scheduling";
  diagnostic_version = "v1";
  status = status_of s;
  summary =
      "Scheduling evidence evaluated for "
      +++ itoa (pos count)
      +++ " normalized Pod record(s); causal verification remains separate.";
  claims = sort_stable claim_before s.claims;
  missing_requirements = missing_of s;
  warnings = sort_stable (ascending_text (λ w. w)) (final_warnings s);
}

unfoldable pub evaluate :
    (String → String) → (Char → Char) → List SchedulingObservation → DiagnosticResult
unfolding concluded
evaluate quote beyond [] = record {
  diagnostic_id = "scheduling";
  diagnostic_version = "v1";
  status = status_not_applicable;
  summary = "SchedulingDiagnostic did not find normalized Pod scheduling evidence.";
  claims = [];
  missing_requirements = state_requirement ∷ [];
  warnings = [];
}
evaluate quote beyond (o ∷ os) =
    concluded (survey_all quote beyond unsurveyed (o ∷ os)) (length (o ∷ os))
