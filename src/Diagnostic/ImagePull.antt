-- ===== src/Diagnostic/ImagePull.antt =====
-- The diagnostic of images that cannot be pulled (internal/diagnostic/imagepull.go).
use fluxseer_rca.Base.{
  String, List, [], ◌∷◌, Bool, true, false, ◌&&◌, ◌||◌, ◌==◌, ◌!=◌, Char, ◌++◌, ◌+++◌, trim_space,
  to_lower, has_any_part, has_text, if◌then◌else◌, keep, map, any, length, pos, itoa, sorted_set,
}
use fluxseer_rca.Api.Evidence.{EvidenceRef}
use fluxseer_rca.Controllers.Effectiveness.{equal_fold}
use fluxseer_rca.Diagnostic.Types.{
  Requirement, CandidateClaim, DiagnosticResult, claim_observation, claim_failure_mechanism,
  claim_root_cause, status_supported, status_inconclusive, status_not_applicable,
}
use fluxseer_rca.Diagnostic.Evidence.{
  Observation, EvidenceSet, MatchResult, Diagnostic, observation_type_event, target_uid,
  event_reason, event_message,
}

module _ (beyond : Char → Char) where
  -- `isImagePullReason`.
  unfoldable pub is_image_pull_reason : String → Bool
  is_image_pull_reason reason =
      let text = to_lower beyond (trim_space reason) in
      text == "errimagepull" || text == "imagepullbackoff"

  -- `isImagePullEvidence`.
  unfoldable pub is_image_pull_evidence : String → String → Bool
  unfolding is_image_pull_reason
  is_image_pull_evidence reason summary =
      is_image_pull_reason reason
      || has_any_part (to_lower beyond (trim_space (reason +++ " " +++ summary))) (
          "errimagepull" ∷ "imagepullbackoff" ∷ "failed to pull image" ∷ "pull access denied"
          ∷ "failed to resolve reference" ∷ "image pull failed" ∷ [])

  kind_named : String → List String
  kind_named text =
      if has_any_part text
        ("manifest unknown" ∷ "image not found" ∷ "not found" ∷ "repository does not exist" ∷ [])
      then "manifest-missing" ∷ []
      else if has_any_part text
          ("unauthorized" ∷ "authentication required" ∷ "pull access denied" ∷ "denied" ∷ [])
      then "registry-auth" ∷ []
      else if has_any_part text (
          "no such host" ∷ "name resolution" ∷ "dns" ∷ "timeout" ∷ "connection refused"
          ∷ "network is unreachable" ∷ [])
      then "registry-network" ∷ []
      else []

  -- `imagePullDetailKinds`.
  unfoldable pub image_pull_detail_kinds : String → String → List String
  unfolding kind_named
  image_pull_detail_kinds summary reason =
      kind_named (to_lower beyond (trim_space (summary +++ " " +++ reason)))

  abbrev said_by : Observation → String
  said_by o = event_message o +++ " " +++ o.summary

  unfoldable pub is_pull_observation : Observation → Bool
  unfolding is_image_pull_evidence
  is_pull_observation o =
      o.type == observation_type_event
      && (is_image_pull_evidence (event_reason o) (said_by o) && o.id != "")

  unfoldable pub is_pull_ref : EvidenceRef → Bool
  unfolding is_image_pull_evidence
  is_pull_ref r =
      equal_fold (trim_space r.kind) "event"
      && (is_image_pull_evidence r.reason r.summary && r.id != "")

  -- `imagePullEvidenceIDs`.
  unfoldable pub image_pull_evidence_ids : EvidenceSet → List String
  unfolding is_pull_observation is_pull_ref
  image_pull_evidence_ids evidence = sorted_set (
      map (λ o. o.id) (keep is_pull_observation evidence.observations)
      ++ map (λ r. r.id) (keep is_pull_ref evidence.evidence_refs))

  observation_kinds : List String → List Observation → List String
  unfolding image_pull_detail_kinds
  observation_kinds ids [] = []
  observation_kinds ids (o ∷ os) =
      let rest = observation_kinds ids os in
      if has_text o.id ids
      then image_pull_detail_kinds (said_by o) (event_reason o) ++ rest
      else rest

  ref_kinds : List String → List EvidenceRef → List String
  unfolding image_pull_detail_kinds
  ref_kinds ids [] = []
  ref_kinds ids (r ∷ rs) =
      let rest = ref_kinds ids rs in
      if has_text r.id ids then image_pull_detail_kinds r.summary r.reason ++ rest else rest

  -- The kinds of detail that the evidence names, sorted.
  unfoldable pub detail_kinds : List String → EvidenceSet → List String
  unfolding observation_kinds ref_kinds
  detail_kinds ids evidence =
      sorted_set
        (observation_kinds ids evidence.observations ++ ref_kinds ids evidence.evidence_refs)

-- Some piece of the evidence was truncated.
unfoldable pub is_truncated : List String → EvidenceSet → Bool
is_truncated ids evidence =
    any (λ o. has_text o.id ids && o.truncated) evidence.observations
    || any (λ r. has_text r.id ids && r.truncated) evidence.evidence_refs

-- `imagePullCauseStatement`.
unfoldable pub image_pull_cause_statement : String → String
image_pull_cause_statement kind =
    if kind == "manifest-missing"
    then "The registry reported that the requested image manifest could not be found."
    else if kind == "registry-auth"
    then "The registry rejected access to the requested image."
    else if kind == "registry-network"
    then "Image retrieval encountered a registry or name-resolution failure."
    else "The image-pull failure has a specific provider detail."

abbrev pub event_requirement : Requirement
event_requirement = record {
  id = "image-pull-event";
  capability = "event";
  description =
      "a target-scoped image-pull failure Event (for example ErrImagePull or ImagePullBackOff)";
  required = true;
}

abbrev pub cause_requirement : Requirement
cause_requirement = record {
  id = "image-pull-cause-detail";
  capability = "event";
  description = "untruncated Event detail for a specific image-pull failure mechanism";
  required = false;
}

unfoldable pub cause_claim : String → List String → String → CandidateClaim
unfolding image_pull_cause_statement
cause_claim target ids kind = record {
  id = "image-pull-cause-" +++ kind;
  type = claim_root_cause;
  statement = image_pull_cause_statement kind;
  target_uid = target;
  evidence_refs = ids;
}

unfoldable pub observed_claims : String → List String → List CandidateClaim
observed_claims target ids =
    record {
      id = "image-pull-observed";
      type = claim_observation;
      statement =
          "A target container is waiting because Kubernetes reported an image-pull failure.";
      target_uid = target;
      evidence_refs = ids;
    }
    ∷ record {
      id = "image-pull-failure";
      type = claim_failure_mechanism;
      statement = "The target container could not retrieve its configured image.";
      target_uid = target;
      evidence_refs = ids;
    }
    ∷ []

abbrev when_truncated {ℓ} : {A : Type ℓ} → Bool → A → List A
when_truncated true x = x ∷ []
when_truncated false x = []

abbrev when_unknown {ℓ} : {A : Type ℓ} → List String → A → List A
when_unknown [] x = x ∷ []
when_unknown (k ∷ ks) x = []

unfoldable pub pull_failure : String → List String → List String → Bool → DiagnosticResult
unfolding cause_claim observed_claims
pull_failure target ids kinds truncated = record {
  diagnostic_id = "image-pull";
  diagnostic_version = "v1";
  status = if truncated then status_inconclusive else status_supported;
  summary =
      "Image-pull failure evidence matched "
      +++ itoa (pos (length ids))
      +++ " bounded observation(s); causal verification remains separate.";
  claims =
      observed_claims target ids ++ (if truncated then [] else map (cause_claim target ids) kinds);
  missing_requirements =
      when_truncated truncated cause_requirement ++ when_unknown kinds cause_requirement;
  warnings =
      when_truncated truncated
        "image-pull evidence was truncated; specific failure verification is incomplete"
      ++ when_unknown kinds "the image-pull event does not contain a specific failure detail";
}

module _ (beyond : Char → Char) where
  unfoldable pub evaluate_pulls : EvidenceSet → List String → DiagnosticResult
  unfolding pull_failure
  evaluate_pulls evidence [] = record {
    diagnostic_id = "image-pull";
    diagnostic_version = "v1";
    status = status_not_applicable;
    summary = "ImagePullDiagnostic did not find target-scoped image-pull failure evidence.";
    claims = [];
    missing_requirements = event_requirement ∷ [];
    warnings = [];
  }
  evaluate_pulls evidence (id ∷ ids) =
      pull_failure (target_uid evidence) (id ∷ ids) (detail_kinds beyond (id ∷ ids) evidence)
        (is_truncated (id ∷ ids) evidence)

  match_pulls : List String → MatchResult
  match_pulls [] = record { applicable = false; reason = "no image-pull failure evidence" }
  match_pulls (id ∷ ids) = record { applicable = true; reason = "image-pull evidence is present" }

  abbrev is_nil : List String → Bool
  is_nil [] = true
  is_nil (s ∷ ss) = false

  -- `ImagePullDiagnostic`.
  unfoldable pub image_pull_diagnostic : Diagnostic
  unfolding evaluate_pulls match_pulls
  image_pull_diagnostic = record {
    id = "image-pull";
    version = "v1";
    match_evidence = λ e.
        if e.scope.deployment_uid != "" && (e.scope.complete && is_nil e.scope.pod_uids)
        then record { applicable = false; reason = "validated Deployment scope has no Pods" }
        else match_pulls (image_pull_evidence_ids beyond e);
    requirements = λ e. event_requirement ∷ cause_requirement ∷ [];
    evaluate = λ e. evaluate_pulls e (image_pull_evidence_ids beyond e);
  }
