-- ===== src/Tests/Evidence.antt =====
-- The classification of evidence and the accounting of candidates on concrete inputs.
use fluxseer_rca.Base.{
  ℕ, ◌+◌, ◌≤◌, find, trim_space, String, [], ◌∷◌, none, true, false, ◌≡◌, refl, Char, pos, All,
}
use mathlib.Core.List.{Memᴰ}
use fluxseer_rca.Api.Evidence.{EvidenceRef}
use fluxseer_rca.Classification.Egress.{
  ModelProviderDataPolicy, decision_allowed, decision_rejected, evaluate_provider_policy,
}
use fluxseer_rca.Classification.Egress.Safe.{IsPermitted, evaluate_provider_policy-IsPermitted}
use fluxseer_rca.Diagnostic.Types.{CandidateRecord, EvidenceIdentity}
use fluxseer_rca.Diagnostic.Candidates.{
  Digests, identity_of, is_conflicting, incident_window_compatible, candidate_problem, ref_problem,
  evidence_problem, check_refs, validate_refs, validate_candidate,
}
use fluxseer_rca.Diagnostic.Accounting.{AccountingItem, account_candidates}
use fluxseer_rca.Diagnostic.Accounted.{account_candidates_total}
use fluxseer_rca.Diagnostic.Proposed.{
  IsSupport, validate_candidate-IsSupport, IsProposedFor, resolve_item-IsProposedFor,
}

same_char : Char → Char
same_char c = c

abbrev log_ref : EvidenceRef
log_ref = record {
  id = "e-1";
  kind = "log";
  source = "loki";
  summary = "password=hunter2";
  query = "";
  query_digest = "";
  content_digest = "";
  digest_algorithm = "";
  digest_canonicalization = "";
  redaction_profile = "";
  classification = none;
  truncated = false;
  truncation_reason = "";
  limit_dimension = "";
  limit = pos 0;
  original_count = pos 0;
  retained_count = pos 0;
  original_bytes = pos 0;
  retained_bytes = pos 0;
  collected_at = none;
  payload_ref = none;
  reason = "";
  link = "";
  related_targets = [];
}

abbrev internal_only : ModelProviderDataPolicy
internal_only = record {
  allow_external_transmission = true;
  allowed_evidence_kinds = [];
  denied_sensitivity_tags = "credentialLike" ∷ [];
  allow_log_samples = true;
  require_redaction = true;
  maximum_classification = "Internal";
}

evaluate_provider_policy-IsPermitted_example :
    ((evaluate_provider_policy same_char internal_only (log_ref ∷ [])).decision ≡ decision_allowed
      → IsPermitted same_char internal_only (log_ref ∷ []))
    × ((evaluate_provider_policy same_char internal_only (log_ref ∷ [])).decision
          ≡ decision_rejected
        → ((evaluate_provider_policy same_char internal_only (log_ref ∷ [])).maximum_sent ≡ "")
          × ((evaluate_provider_policy same_char internal_only (log_ref ∷ [])).sensitivity_tags_sent
              ≡ []))
evaluate_provider_policy-IsPermitted_example =
    evaluate_provider_policy-IsPermitted same_char internal_only (log_ref ∷ [])

abbrev digests : Digests
digests = record {
  evidence = λ e. e.target_uid;
  claim = λ c. c.statement;
  candidate = λ c. c.candidate_id;
  time = λ t. "then";
}

abbrev event_seen : EvidenceIdentity
event_seen = record {
  id = "e-1";
  target_uid = "uid-pod";
  incident_start = pos 0;
  incident_end = pos 0;
  authorized = true;
  valid = true;
  incomplete = false;
}

abbrev candidate : String → CandidateRecord
candidate id = record {
  diagnostic_id = "scheduling";
  diagnostic_version = "v1";
  incident_start = pos 0;
  incident_end = pos 0;
  candidate = record {
    id = id;
    type = "RootCause";
    statement = "No node has enough memory.";
    target_uid = "uid-pod";
    evidence_refs = "e-1" ∷ [];
  };
  evidence = event_seen ∷ [];
}

account_candidates_total_example :
    ((account_candidates digests same_char (candidate "a" ∷ candidate "b" ∷ [])).summary.total ≡ 2)
    × ((account_candidates digests same_char
            (candidate "a" ∷ candidate "b" ∷ [])).summary.proposed_claim_count
          + (account_candidates digests same_char
              (candidate "a" ∷ candidate "b" ∷ [])).summary.retained_hypothesis_count
          + (account_candidates digests same_char
              (candidate "a" ∷ candidate "b" ∷ [])).summary.rejected_candidate_count
          + (account_candidates digests same_char
              (candidate "a" ∷ candidate "b" ∷ [])).summary.deduplicated_count
        ≡ 2)
account_candidates_total_example =
    account_candidates_total digests same_char (candidate "a" ∷ candidate "b" ∷ [])

may_be_proposed : (validate_candidate digests same_char (candidate "a")).2 ≡ true
unfolding validate_candidate candidate_problem validate_refs check_refs ref_problem evidence_problem
    identity_of is_conflicting incident_window_compatible find trim_space
may_be_proposed = refl

validate_candidate-IsSupport_example :
    All (IsSupport digests same_char (candidate "a")) ("e-1" ∷ []) × (1 ≤ 1)
validate_candidate-IsSupport_example =
    validate_candidate-IsSupport digests same_char (candidate "a") may_be_proposed

abbrev item : ℕ → String → AccountingItem
item index id = record {
  index = index;
  resolution = record {
    candidate_id = id;
    candidate_fingerprint = id;
    claim_fingerprint = "No node has enough memory.";
    disposition = "ProposedClaim";
    canonical_claim_id = "";
    duplicate_of = "";
    reason = "";
  };
  eligible = true;
}

resolve_item-IsProposedFor_example : IsProposedFor (item 0 "b" ∷ item 1 "a" ∷ []) (item 0 "b")
resolve_item-IsProposedFor_example =
    resolve_item-IsProposedFor (item 0 "b" ∷ item 1 "a" ∷ []) (item 0 "b") (Memᴰ.head refl) refl
