-- ===== src/Classification/Egress.antt =====
-- `EvaluateProviderPolicy`: what a model provider may be sent
-- (internal/dataclassification/classification.go).
pub mod Safe
use fluxseer_rca.Base.{
  String, List, [], ◌∷◌, Option, none, some, Bool, true, false, not, ◌&&◌, ◌==◌, ◌!=◌, Char,
  trim_space, if◌then◌else◌, ◌+++◌, find, all, has_text,
}
use fluxseer_rca.Api.Evidence.{DataClassification, EvidenceRef}
use fluxseer_rca.Classification.Levels.{
  level_internal, normalize_level, exceeds, normalize_sensitivity_tag,
}
use fluxseer_rca.Classification.Bundle.{tags_of, policy_version, bundle_classification}

pub record ModelProviderDataPolicy : Type 0 where
  pub allow_external_transmission : Bool
  pub allowed_evidence_kinds : List String
  pub denied_sensitivity_tags : List String
  pub allow_log_samples : Bool
  pub require_redaction : Bool
  pub maximum_classification : String

pub record Decision : Type 0 where
  pub decision : String
  pub reason : String
  pub message : String
  pub maximum_observed : String
  pub maximum_allowed : String
  pub maximum_sent : String
  pub sensitivity_tags_sent : List String
  pub classification_version : String

abbrev pub decision_allowed : String
decision_allowed = "Allowed"

abbrev pub decision_rejected : String
decision_rejected = "Rejected"

-- `allRefsRedacted`.
unfoldable pub all_refs_redacted : List EvidenceRef → Bool
all_refs_redacted refs = all (λ r. trim_space r.redaction_profile != "") refs

unfoldable pub rejected : DataClassification → String → String → String → Decision
rejected observed allowed reason message = record {
  decision = decision_rejected;
  reason = reason;
  message = message;
  maximum_observed = observed.level;
  maximum_allowed = allowed;
  maximum_sent = "";
  sensitivity_tags_sent = [];
  classification_version = policy_version;
}

allowed_level : String → String
allowed_level level = if level == "" then level_internal else level

module _ (beyond : Char → Char) where
  abbrev is_denied : List String → String → Bool
  is_denied denied tag = has_text (normalize_sensitivity_tag beyond tag) (tags_of beyond denied)

  shown : Option String → String
  shown none = ""
  shown (some tag) = normalize_sensitivity_tag beyond tag

  -- `deniedTag`.
  unfoldable pub denied_tag : List String → List String → String
  unfolding shown
  denied_tag tags denied = shown (find (is_denied denied) tags)

  unfoldable pub evaluate_bundle :
      ModelProviderDataPolicy → List EvidenceRef → DataClassification → String → Decision
  unfolding rejected
  evaluate_bundle policy refs observed allowed =
      let denied = denied_tag observed.sensitivity_tags policy.denied_sensitivity_tags in
      if exceeds beyond observed.level allowed
      then rejected observed allowed "ClassificationExceeded" (
          "evidence classification " +++ observed.level +++ " exceeds allowed maximum " +++ allowed)
      else if denied != ""
      then rejected observed allowed "SensitivityTagDenied"
          ("evidence sensitivity tag " +++ denied +++ " is denied by provider data policy")
      else if policy.require_redaction && not (all_refs_redacted refs)
      then rejected observed allowed "RedactionRequired"
          "provider data policy requires redaction metadata on all transmitted evidence"
      else record {
        decision = decision_allowed;
        reason = "Allowed";
        message = "";
        maximum_observed = observed.level;
        maximum_allowed = allowed;
        maximum_sent = observed.level;
        sensitivity_tags_sent = observed.sensitivity_tags;
        classification_version = policy_version;
      }

  -- `EvaluateProviderPolicy`.
  unfoldable pub evaluate_provider_policy : ModelProviderDataPolicy → List EvidenceRef → Decision
  unfolding evaluate_bundle allowed_level
  evaluate_provider_policy policy refs =
      evaluate_bundle policy refs (bundle_classification beyond refs)
        (allowed_level (normalize_level beyond policy.maximum_classification))
