-- ===== src/Diagnostic/Scheduling.antt =====
-- The diagnostic of Pods that are not scheduled (internal/diagnostic/scheduling.go).
pub mod Evaluate
pub mod Supported
pub mod Flags
pub mod Verdict
use fluxseer_rca.Base.{
  String, List, [], ◌∷◌, Option, none, some, Bool, true, false, not, ◌&&◌, ◌||◌, ◌==◌, ◌!=◌, Char,
  trim_space, to_lower, has_part, has_any_part, has_text, join, if◌then◌else◌, ◌+++◌, ◌++◌, map,
}
use fluxseer_rca.Controllers.Effectiveness.{equal_fold}
use fluxseer_rca.Diagnostic.Types.{
  CandidateClaim, SchedulingObservation, claim_observation, claim_failure_mechanism,
  claim_root_cause, coverage_unavailable, coverage_truncated, coverage_unauthorized,
  coverage_collection_failed,
}
use fluxseer_rca.Diagnostic.Candidates.{unique_strings}

-- What the loop over the observations has found so far. The keys of the claims are their ids.
pub record Survey : Type 0 where
  pub claims : List CandidateClaim
  pub warnings : List String
  pub valid_state : Bool
  pub observed_failure : Bool
  pub observed_gate : Bool
  pub observed_unassigned : Bool
  pub assigned_pod : Bool

-- `firstNonEmptyScheduling` of two texts.
unfoldable pub first_non_empty : String → String → String
first_non_empty s t =
    if trim_space s != ""
    then trim_space s
    else if trim_space t != ""
    then trim_space t
    else "unknown"

abbrev fallback : List String → String → List String
fallback [] id = if id != "" then id ∷ [] else []
fallback (r ∷ rs) id = r ∷ rs

-- `schedulingEvidenceRefs`.
unfoldable pub scheduling_evidence_refs : SchedulingObservation → List String
scheduling_evidence_refs o = unique_strings (fallback o.evidence_refs o.id)

-- `eventMatchesPod`.
unfoldable pub event_matches_pod : SchedulingObservation → Bool
event_matches_pod o =
    if trim_space o.event_reason == "" && trim_space o.event_message == ""
    then false
    else if o.event_pod_uid != "" && o.event_pod_uid != o.pod_uid
    then false
    else not o.stale && not o.truncated

unfoldable pub has_state : SchedulingObservation → Bool
has_state o = o.state_collected || o.coverage != coverage_truncated

is_unavailable : String → Bool
is_unavailable coverage =
    coverage == coverage_unauthorized
    || (coverage == coverage_unavailable || coverage == coverage_collection_failed)

-- Why an observation says nothing of its Pod.
unfoldable pub skip_reason : (String → String) → SchedulingObservation → Option String
unfolding is_unavailable first_non_empty has_state
skip_reason quote o =
    let pod_uid = trim_space o.pod_uid in
    if pod_uid == ""
    then some "scheduling evidence is missing a Pod UID"
    else if o.stale
    then some ("scheduling evidence for Pod UID " +++ quote pod_uid +++ " is stale")
    else if is_unavailable o.coverage
    then some (
        "scheduling evidence for Pod UID "
        +++ quote pod_uid
        +++ " is unavailable: "
        +++ first_non_empty o.coverage_reason o.coverage)
    else if not (has_state o)
    then some (
        "scheduling state for Pod UID "
        +++ quote pod_uid
        +++ " was not collected: "
        +++ first_non_empty o.coverage_reason "state unavailable")
    else none

abbrev pub claim_of : SchedulingObservation → String → String → String → CandidateClaim
claim_of o id type statement = record {
  id = id +++ trim_space o.pod_uid;
  type = type;
  statement = statement;
  target_uid = trim_space o.pod_uid;
  evidence_refs = scheduling_evidence_refs o;
}

-- `appendSchedulingClaim`.
unfoldable pub append_claim : Survey → CandidateClaim → Survey
append_claim s c =
    if c.id == ""
    then s
    else if has_text c.id (map (λ d. d.id) s.claims)
    then s
    else record s { claims = s.claims ++ c ∷ [] }

unfoldable pub append_claims : Survey → List CandidateClaim → Survey
append_claims s [] = s
append_claims s (c ∷ cs) = append_claims (append_claim s c) cs

unfoldable pub warned : Survey → String → Survey
warned s w = record s { warnings = s.warnings ++ w ∷ [] }

-- A claim of a cause, if it is named, before the others.
unfoldable pub cause_of :
    SchedulingObservation → Bool → String → String → List CandidateClaim → List CandidateClaim
cause_of o true id statement rest = claim_of o id claim_root_cause statement ∷ rest
cause_of o false id statement rest = rest

module _ (beyond : Char → Char) where
  unfoldable pub event_text : SchedulingObservation → String
  event_text o =
      if event_matches_pod o
      then to_lower beyond (join " " (o.event_reason ∷ o.event_message ∷ []))
      else ""

  unfoldable pub condition_text : SchedulingObservation → String
  condition_text o =
      to_lower beyond
        (join " " (o.pod_scheduled_status ∷ o.pod_scheduled_reason ∷ o.pod_scheduled_message ∷ []))

  -- The condition or the event of the Pod says that it could not be scheduled.
  unfoldable pub is_unschedulable : SchedulingObservation → Bool
  is_unschedulable o =
      (equal_fold (trim_space o.pod_scheduled_status) "False"
        && has_any_part (condition_text o) ("unschedulable" ∷ []))
      || has_any_part (event_text o) ("failedscheduling" ∷ "failed scheduling" ∷ [])

  -- `schedulingCandidates`.
  unfoldable pub scheduling_candidates : SchedulingObservation → String → List CandidateClaim
  unfolding cause_of
  scheduling_candidates o said =
      let text = to_lower beyond said in
      cause_of o (has_any_part text ("insufficient cpu" ∷ "insufficient vcpu" ∷ []))
        "scheduling-cause-insufficient-cpu/" "The scheduler reported insufficient CPU for the Pod."
        (cause_of o (has_any_part text ("insufficient memory" ∷ []))
          "scheduling-cause-insufficient-memory/"
          "The scheduler reported insufficient memory for the Pod."
          (cause_of o (has_part text "taint" && has_part text "tolerat")
            "scheduling-cause-taint-mismatch/"
            "The scheduler reported an untolerated Node taint for the Pod."
            (cause_of o
              (has_any_part text (
                "node selector" ∷ "node affinity" ∷ "affinity mismatch" ∷ "didn't match node" ∷ []))
              "scheduling-cause-node-affinity-mismatch/"
              "The scheduler reported a Node selector or affinity mismatch for the Pod." [])))
