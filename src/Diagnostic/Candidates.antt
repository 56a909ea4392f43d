-- ===== src/Diagnostic/Candidates.antt =====
-- The validation and the fingerprints of one candidate (internal/diagnostic/accounting.go).
use fluxseer_rca.Base.{
  String, List, [], ◌∷◌, Option, none, some, Bool, true, false, not, ◌&&◌, ◌||◌, ◌==◌, ◌!=◌, Char,
  trim_space, to_lower, fields, join, if◌then◌else◌, find, any, keep, map, sorted_set, sort_stable,
  ascending_text,
}
use fluxseer_rca.Api.Meta.{Time, is_zero_time, before}
use fluxseer_rca.Diagnostic.Types.{
  EvidenceIdentity, CandidateRecord, claim_observation, claim_failure_mechanism, claim_root_cause,
}

abbrev pub proposed_claim : String
proposed_claim = "ProposedClaim"

abbrev pub retained_hypothesis : String
retained_hypothesis = "RetainedHypothesis"

abbrev pub rejected_candidate : String
rejected_candidate = "Rejected"

abbrev pub deduplicated : String
deduplicated = "Deduplicated"

-- What the three fingerprints are the digests of.
pub record EvidenceContent : Type 0 where
  pub target_uid : String
  pub incident_start : String
  pub incident_end : String
  pub authorized : Bool
  pub valid : Bool
  pub incomplete : Bool

pub record ClaimContent : Type 0 where
  pub claim_type : String
  pub statement : String
  pub target_uid : String
  pub incident_start : String
  pub incident_end : String

pub record CandidateContent : Type 0 where
  pub diagnostic_id : String
  pub diagnostic_version : String
  pub candidate_id : String
  pub claim : ClaimContent
  pub evidence : List String

-- The canonical digests and the rendering of an instant, of `canonicaldigest`.
pub record Digests : Type 0 where
  pub evidence : EvidenceContent → String
  pub claim : ClaimContent → String
  pub candidate : CandidateContent → String
  pub time : Time → String

abbrev is_not_empty : String → Bool
is_not_empty s = s != ""

-- `uniqueStrings`.
unfoldable pub unique_strings : List String → List String
unique_strings values = sorted_set (keep is_not_empty (map trim_space values))

-- `normalizeClaimStatement`.
unfoldable pub normalize_claim_statement : (Char → Char) → String → String
normalize_claim_statement beyond value = join " " (fields (to_lower beyond (trim_space value)))

-- `incidentWindowCompatible`.
unfoldable pub incident_window_compatible : Time → Time → Time → Time → Bool
incident_window_compatible start end evidence_start evidence_end =
    if is_zero_time start
      && (is_zero_time end && (is_zero_time evidence_start && is_zero_time evidence_end))
    then true
    else if is_zero_time start
        || (is_zero_time end || (is_zero_time evidence_start || is_zero_time evidence_end))
    then false
    else if before end start || before evidence_end evidence_start
    then false
    else not (before end evidence_start) && not (before evidence_end start)

abbrev has_id : String → EvidenceIdentity → Bool
has_id id v = let given = trim_space v.id in given != "" && given == id

-- `evidenceIdentityMap`, read at an identity: the first one stands, and an empty one is left out.
unfoldable pub identity_of : String → List EvidenceIdentity → Option EvidenceIdentity
identity_of id evidence = find (has_id id) evidence

-- `normalizeCandidateRecord`.
unfoldable pub normalize_candidate_record : CandidateRecord → CandidateRecord
normalize_candidate_record r = record r {
  diagnostic_id = trim_space r.diagnostic_id;
  diagnostic_version = trim_space r.diagnostic_version;
  candidate = record r.candidate {
    id = trim_space r.candidate.id;
    statement = trim_space r.candidate.statement;
    target_uid = trim_space r.candidate.target_uid;
    evidence_refs = unique_strings r.candidate.evidence_refs;
  };
}

abbrev pub is_incomplete : Option EvidenceIdentity → Bool
is_incomplete none = false
is_incomplete (some v) = v.incomplete

-- Why a piece of evidence cannot carry the candidate.
unfoldable pub evidence_problem : CandidateRecord → EvidenceIdentity → Bool → Option String
evidence_problem r v conflicting =
    if conflicting
    then some "EvidenceIdentityConflict"
    else if not v.authorized
    then some "EvidenceUnauthorized"
    else if not v.valid
    then some "EvidenceInvalid"
    else if v.target_uid == ""
    then some "EvidenceTargetUIDMissing"
    else if v.target_uid != r.candidate.target_uid
    then some "EvidenceTargetUIDMismatch"
    else if not
        (incident_window_compatible r.incident_start r.incident_end v.incident_start v.incident_end)
    then some "EvidenceOutsideIncidentWindow"
    else none

-- What the candidate itself lacks.
unfoldable pub candidate_problem : CandidateRecord → Option String
candidate_problem r =
    let c = r.candidate in
    if c.id == ""
    then some "MissingCandidateID"
    else if r.diagnostic_id == "" || r.diagnostic_version == ""
    then some "MissingDiagnosticIdentity"
    else if c.target_uid == ""
    then some "MissingTargetUID"
    else if c.statement == ""
    then some "MissingCandidateStatement"
    else if not (
        c.type == claim_observation
        || (c.type == claim_failure_mechanism || c.type == claim_root_cause))
    then some "InvalidClaimType"
    else none

module _ (digests : Digests) (beyond : Char → Char) where
  canonical_time : Time → String
  canonical_time t = if is_zero_time t then "" else digests.time t

  evidence_fingerprint : EvidenceIdentity → String
  unfolding canonical_time
  evidence_fingerprint v = digests.evidence (record {
    target_uid = trim_space v.target_uid;
    incident_start = canonical_time v.incident_start;
    incident_end = canonical_time v.incident_end;
    authorized = v.authorized;
    valid = v.valid;
    incomplete = v.incomplete;
  })

  differs_from : List EvidenceIdentity → String → Option EvidenceIdentity → Bool
  unfolding evidence_fingerprint
  differs_from evidence id none = false
  differs_from evidence id (some one) =
      any (λ v. has_id id v && evidence_fingerprint v != evidence_fingerprint one) evidence

  -- `evidenceIdentityConflicts`, read at an identity: a later one has another content.
  unfoldable pub is_conflicting : String → List EvidenceIdentity → Bool
  unfolding differs_from
  is_conflicting id evidence = differs_from evidence id (identity_of id evidence)

  claim_content : CandidateRecord → ClaimContent
  unfolding canonical_time
  claim_content r = record {
    claim_type = r.candidate.type;
    statement = normalize_claim_statement beyond r.candidate.statement;
    target_uid = trim_space r.candidate.target_uid;
    incident_start = canonical_time r.incident_start;
    incident_end = canonical_time r.incident_end;
  }

  -- `FingerprintClaim`: neither the diagnostic nor the evidence.
  unfoldable pub fingerprint_claim : CandidateRecord → String
  unfolding claim_content
  fingerprint_claim r = digests.claim (claim_content r)

  evidence_line : String → Option EvidenceIdentity → String
  unfolding canonical_time
  evidence_line id none = join "|" (id ∷ "" ∷ "" ∷ "" ∷ [])
  evidence_line id (some v) =
      join "|"
        (id ∷ v.target_uid ∷ canonical_time v.incident_start ∷ canonical_time v.incident_end ∷ [])

  -- `FingerprintCandidate`.
  unfoldable pub fingerprint_candidate : CandidateRecord → String
  unfolding claim_content evidence_line
  fingerprint_candidate r = digests.candidate (record {
    diagnostic_id = trim_space r.diagnostic_id;
    diagnostic_version = trim_space r.diagnostic_version;
    candidate_id = trim_space r.candidate.id;
    claim = claim_content r;
    evidence = sort_stable (ascending_text (λ s. s)) (
        map (λ id. evidence_line id (identity_of id r.evidence))
          (unique_strings r.candidate.evidence_refs));
  })

  unfoldable pub ref_problem : CandidateRecord → String → Option EvidenceIdentity → Option String
  unfolding evidence_problem
  ref_problem r ref none = some "EvidenceReferenceNotFound"
  ref_problem r ref (some v) = evidence_problem r v (is_conflicting ref r.evidence)

  -- The loop over the references: the disposition, the reason, and whether it may be proposed.
  unfoldable pub check_refs : CandidateRecord → List String → Bool → String × String × Bool
  check_refs r [] true = (retained_hypothesis, "EvidenceIncomplete", false)
  check_refs r [] false = (proposed_claim, "CandidateAcceptedForVerification", true)
  check_refs r (ref ∷ refs) incomplete = elim (ref_problem r ref (identity_of ref r.evidence)) [
    | some why ↦ (rejected_candidate, why, false)
    | none ↦ check_refs r refs (incomplete || is_incomplete (identity_of ref r.evidence))
  ]

  unfoldable pub validate_refs : CandidateRecord → List String → String × String × Bool
  validate_refs r [] = (retained_hypothesis, "EvidenceRefsMissing", false)
  validate_refs r (ref ∷ refs) = check_refs r (ref ∷ refs) false

  -- `validateCandidate`.
  unfoldable pub validate_candidate : CandidateRecord → String × String × Bool
  unfolding validate_refs
  validate_candidate r = elim (candidate_problem r) [
    | some why ↦ (rejected_candidate, why, false)
    | none ↦ validate_refs r r.candidate.evidence_refs
  ]
