-- ===== src/Thresholds/Enforcer.antt =====
-- `Enforcer`: which threshold applies to a namespace, and whether its usage complies
-- (internal/thresholds/enforcer.go).
use fluxseer_rca.Base.{
  String, List, [], ◌∷◌, ◌++◌, Option, none, some, Bool, true, false, ◌&&◌, ◌==◌, ◌!=◌, ℤ, pos,
  ltb_ℤ, if◌then◌else◌, ◌+++◌, first, sort_stable, descending, preferring, ascending_text,
}
use fluxseer_rca.Api.Meta.{
  StringMap, Result, ok, err, ◌>>=◌, other, wrap_error, Selects, LabelSelector,
}
use fluxseer_rca.Api.Policy.{NamespaceThreshold}
use fluxseer_rca.Guardrails.Resolve.{group_version, version_of}

abbrev pub threshold_match_direct : String
threshold_match_direct = "DirectNamespace"

abbrev pub threshold_match_selector : String
threshold_match_selector = "NamespaceSelector"

pub record ThresholdRequest : Type 0 where
  pub namespace : String
  pub namespace_labels : StringMap

pub record Usage : Type 0 where
  pub active_plans : ℤ
  pub pending_approvals : ℤ

pub record ThresholdReference : Type 0 where
  pub api_version : String
  pub kind : String
  pub name : String
  pub namespace : String
  pub uid : String
  pub resource_version : String
  pub generation : ℤ
  pub version : String
  pub priority : ℤ
  pub match_type : String

pub record Resolution : Type 0 where
  pub threshold : NamespaceThreshold
  pub reference : ThresholdReference

pub record Violation : Type 0 where
  pub resource : String
  pub current : ℤ
  pub limit : ℤ
  pub reason : String

pub record EnforcementResult : Type 0 where
  pub allowed : Bool
  pub violations : List Violation
  pub resolution : Option Resolution

pub record ThresholdMatch : Type 0 where
  pub threshold : NamespaceThreshold
  pub match_type : String

unfoldable pub threshold_reference : NamespaceThreshold → String → ThresholdReference
threshold_reference t match_type = record {
  api_version = group_version;
  kind = "NamespaceThreshold";
  name = t.meta.name;
  namespace = t.meta.namespace;
  uid = t.meta.uid;
  resource_version = t.meta.resource_version;
  generation = t.meta.generation;
  version = version_of t.meta;
  priority = t.spec.priority;
  match_type = match_type;
}

-- Not skipped by the loop.
unfoldable pub is_enforced : NamespaceThreshold → Bool
is_enforced t = t.spec.enabled && (t.status.phase != "Invalid" && t.status.phase != "Disabled")

unfoldable pub stands_before : ThresholdMatch → ThresholdMatch → Bool
stands_before =
    descending (λ m. m.threshold.spec.priority)
      (preferring (λ m. m.match_type == threshold_match_direct)
        (ascending_text (λ m. m.threshold.meta.namespace +++ "/" +++ m.threshold.meta.name)))

-- The first of the sorted matches.
unfoldable pub selected_resolution : Option ThresholdMatch → Option Resolution
selected_resolution none = none
selected_resolution (some m) =
    some
      (record { threshold = m.threshold; reference = threshold_reference m.threshold m.match_type })

-- One of the two checks: no limit is set, or usage is at most the limit.
unfoldable pub violations_of : String → ℤ → ℤ → String → List Violation
violations_of resource current limit reason =
    if ltb_ℤ (pos 0) limit && ltb_ℤ limit current
    then record { resource = resource; current = current; limit = limit; reason = reason } ∷ []
    else []

abbrev pub has_none : {A : Type 0} → List A → Bool
has_none [] = true
has_none (_ ∷ _) = false

unfoldable pub enforce_resolution : Usage → Option Resolution → EnforcementResult
unfolding violations_of
enforce_resolution usage none = record { allowed = true; violations = []; resolution = none }
enforce_resolution usage (some r) =
    let violations =
      violations_of "activePlans" usage.active_plans r.threshold.spec.active_plans_limit
        "active RemediationPlan count exceeds namespace threshold"
      ++ violations_of "pendingApprovals" usage.pending_approvals
          r.threshold.spec.pending_approvals_limit
          "pending approval count exceeds namespace threshold" in
    record { allowed = has_none violations; violations = violations; resolution = some r }

module _ (selects : Selects) where
  match_selector :
      NamespaceThreshold → ThresholdRequest → Option LabelSelector → Result (String × Bool)
  match_selector t request none = ok (threshold_match_direct, t.meta.namespace == request.namespace)
  match_selector t request (some selector) = do
    matched ← selects selector request.namespace_labels
    ok (threshold_match_selector, matched)

  -- `matchThreshold`: with no selector, the threshold's own namespace alone.
  unfoldable pub match_threshold : NamespaceThreshold → ThresholdRequest → Result (String × Bool)
  unfolding match_selector
  match_threshold t request = match_selector t request t.spec.namespace_selector

  add_threshold :
      NamespaceThreshold
      → Result (String × Bool)
      → Result (List ThresholdMatch)
      → Result (List ThresholdMatch)
  add_threshold t (err e) rest = err (
      wrap_error ("match NamespaceThreshold " +++ t.meta.namespace +++ "/" +++ t.meta.name +++ ": ")
        e)
  add_threshold t (ok (match_type, matched)) rest = do
    matches ← rest
    ok (if matched then record { threshold = t; match_type = match_type } ∷ matches else matches)

  unfoldable pub collect_thresholds :
      List NamespaceThreshold → ThresholdRequest → Result (List ThresholdMatch)
  unfolding add_threshold
  collect_thresholds [] request = ok []
  collect_thresholds (t ∷ ts) request =
      let rest = collect_thresholds ts request in
      if is_enforced t then add_threshold t (match_threshold t request) rest else rest

  -- `Resolve`; the reader is what the list answers, none for a nil reader.
  unfoldable pub resolve_threshold :
      Option (Result (List NamespaceThreshold)) → ThresholdRequest → Result (Option Resolution)
  resolve_threshold none request = err (other "threshold enforcer requires a Kubernetes reader")
  resolve_threshold (some (err e)) request =
      err (wrap_error "list NamespaceThreshold resources: " e)
  resolve_threshold (some (ok thresholds)) request = do
    matches ← collect_thresholds thresholds request
    ok (selected_resolution (first (sort_stable stands_before matches)))

  -- `Evaluate`.
  unfoldable pub evaluate_usage :
      Option (Result (List NamespaceThreshold))
      → ThresholdRequest
      → Usage
      → Result EnforcementResult
  unfolding resolve_threshold enforce_resolution
  evaluate_usage reader request usage = do
    resolution ← resolve_threshold reader request
    ok (enforce_resolution usage resolution)
