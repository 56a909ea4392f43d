-- ===== src/Escalation/Router.antt =====
-- `Router.Resolve` picks the escalation chain of a resource (internal/escalation/router.go).
use fluxseer_rca.Base.{
  String, List, [], ◌∷◌, Option, none, some, is_some, Bool, true, ◌&&◌, ◌!=◌, ℤ, if◌then◌else◌,
  ◌+++◌, first, sort_stable, descending, preferring, ascending_text,
}
use fluxseer_rca.Api.Meta.{
  StringMap, Key, LabelSelector, Result, ok, err, ◌>>=◌, other, wrap_error, is_not_found, Selects,
}
use fluxseer_rca.Api.Policy.{EscalationChain, EscalationConfig}
use fluxseer_rca.Guardrails.Resolve.{group_version, version_of}

pub record ResolveRequest : Type 0 where
  pub namespace : String
  pub escalation_chain_ref : String
  pub resource_labels : StringMap

pub record ChainReference : Type 0 where
  pub api_version : String
  pub kind : String
  pub name : String
  pub namespace : String
  pub uid : String
  pub resource_version : String
  pub generation : ℤ
  pub version : String
  pub priority : ℤ

pub record Route : Type 0 where
  pub chain : EscalationChain
  pub reference : ChainReference

-- What a read of the cluster answers.
pub record Reader : Type 0 where
  pub get : Key → Result EscalationChain
  pub list : String → Result (List EscalationChain)

unfoldable pub route_for_chain : EscalationChain → Route
route_for_chain chain = record {
  chain = chain;
  reference = record {
    api_version = group_version;
    kind = "EscalationChain";
    name = chain.meta.name;
    namespace = chain.meta.namespace;
    uid = chain.meta.uid;
    resource_version = chain.meta.resource_version;
    generation = chain.meta.generation;
    version = version_of chain.meta;
    priority = chain.spec.priority;
  };
}

unfoldable pub is_active : EscalationChain → Bool
is_active chain =
    chain.spec.enabled && (chain.status.phase != "Invalid" && chain.status.phase != "Disabled")

unfoldable pub precedes : EscalationChain → EscalationChain → Bool
precedes =
    descending (λ c. c.spec.priority)
      (preferring (λ c. is_some c.spec.resource_selector) (ascending_text (λ c. c.meta.name)))

abbrev pub full_name : String → String → String
full_name namespace name = namespace +++ "/" +++ name

-- The chain that was read by its name.
unfoldable pub referenced : String → String → Result EscalationChain → Result (Option Route)
referenced namespace name (err e) =
    if is_not_found e
    then err
        (other ("referenced EscalationChain " +++ full_name namespace name +++ " was not found"))
    else err (wrap_error ("get EscalationChain " +++ full_name namespace name +++ ": ") e)
referenced namespace name (ok chain) =
    if is_active chain
    then ok (some (route_for_chain chain))
    else err (
        other (
          "referenced EscalationChain " +++ full_name namespace name +++ " is disabled or invalid"))

abbrev pub routed : Option EscalationChain → Option Route
routed none = none
routed (some chain) = some (route_for_chain chain)

module _ (selects : Selects) where
  -- A chain with no selector applies to every resource.
  unfoldable pub selector_matches : Option LabelSelector → StringMap → Result Bool
  selector_matches none values = ok true
  selector_matches (some selector) values = selects selector values

  abbrev pub add_matched :
      EscalationChain → Result Bool → Result (List EscalationChain) → Result (List EscalationChain)
  add_matched chain (err e) rest = err (
      wrap_error
        ("match EscalationChain " +++ full_name chain.meta.namespace chain.meta.name +++ ": ") e)
  add_matched chain (ok matched) rest = do
    chains ← rest
    ok (if matched then chain ∷ chains else chains)

  unfoldable pub collect_matches : List EscalationChain → StringMap → Result (List EscalationChain)
  collect_matches [] values = ok []
  collect_matches (chain ∷ chains) values =
      let rest = collect_matches chains values in
      if is_active chain
      then add_matched chain (selector_matches chain.spec.resource_selector values) rest
      else rest

  unfoldable pub listed :
      (String → String) → ResolveRequest → Result (List EscalationChain) → Result (Option Route)
  listed quote request (err e) = err (
      wrap_error
        ("list EscalationChain resources in namespace " +++ quote request.namespace +++ ": ") e)
  listed quote request (ok chains) = do
    matches ← collect_matches chains request.resource_labels
    ok (routed (first (sort_stable precedes matches)))

  unfoldable pub read_with : (String → String) → Reader → ResolveRequest → Result (Option Route)
  unfolding listed
  read_with quote reader request =
      if request.escalation_chain_ref != ""
      then referenced request.namespace request.escalation_chain_ref (
          reader.get
            (record { namespace = request.namespace; name = request.escalation_chain_ref }))
      else listed quote request (reader.list request.namespace)

  unfoldable pub resolve :
      (String → String) → Option Reader → ResolveRequest → Result (Option Route)
  unfolding read_with
  resolve quote none request = err (other "escalation router requires a Kubernetes reader")
  resolve quote (some reader) request = read_with quote reader request

  unfoldable pub resolve_for_policy :
      (String → String)
      → Option Reader
      → String
      → Option EscalationConfig
      → StringMap
      → Result (Option Route)
  unfolding resolve
  resolve_for_policy quote reader namespace none labels = ok none
  resolve_for_policy quote reader namespace (some config) labels = resolve quote reader (record {
    namespace = namespace;
    escalation_chain_ref = config.escalation_chain_ref;
    resource_labels = labels;
  })
