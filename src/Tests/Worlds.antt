-- ===== src/Tests/Worlds.antt =====
-- A world of one AgentAction and one Deployment, for the tests.
use fluxseer_rca.Base.{
  ℕ, suc, String, [], ◌∷◌, none, some, Bool, true, ◌&&◌, ◌==◌, ◌≡◌, refl, pos, if◌then◌else◌, ◌+++◌,
  Bool-cases, inl, inr, str_eq→eq, eq→str_eq, ap, sym, ◌∙◌,
}
use fluxseer_rca.Api.Meta.{
  StringMap, Key, key_of, ObjectMeta, Result, ok, err, not_found, other, read, ok-injective,
}
use fluxseer_rca.Api.Action.{
  AgentAction, AgentActionSpec, AgentActionApprovalStatus, phase_waiting_approval,
}
use fluxseer_rca.Executor.Router.{Router}
use fluxseer_rca.Executor.Kubernetes.{Deployment, KubernetesClient}
use fluxseer_rca.Executor.Restart.{kubernetes_backend}
use fluxseer_rca.Executor.Coherence.{IsCoherent}
use fluxseer_rca.Controllers.Flow.{State}
use fluxseer_rca.Controllers.AgentAction.Env.{Env, annotation_target_uid}

pub record World : Type 0 where
  pub action : AgentAction
  pub deployment : Deployment
  pub sent : ℕ

abbrev pub plain : String → String
plain s = s

abbrev pub named_object : String → String → String → StringMap → ObjectMeta
named_object namespace name uid annotations = record {
  name = name;
  namespace = namespace;
  uid = uid;
  generation = pos 1;
  resource_version = "1";
  labels = [];
  annotations = annotations;
  owner_references = [];
}

abbrev pub web : Deployment
web = record {
  meta = named_object "shop" "web" "uid-web" [];
  template_annotations = [];
  replicas = some (pos 3);
  observed_generation = pos 1;
  updated_replicas = pos 3;
  available_replicas = pos 1;
  ready_replicas = pos 1;
  conditions = [];
}

abbrev holds : Key → ObjectMeta → Bool
holds k m = (m.namespace == k.namespace) && (m.name == k.name)

abbrev found : Key → Deployment → Result Deployment
found k d = if holds k d.meta then ok d else err (not_found "deployment not found")

abbrev pub cluster : KubernetesClient World
cluster = record {
  get_deployment = λ k w. (found k w.deployment, w);
  patch_deployment = λ d w. (ok d, record w { deployment = d; sent = suc w.sent });
  clock = λ w. (pos 1000, w);
  baseline_digest = λ target uid health. "digest-of-health";
}

same_key :
    (a b c d : String)
    → a ≡ b
    → c ≡ d
    → ◌≡◌ {A = Key} (record { namespace = a; name = c }) (record { namespace = b; name = d })
same_key a b c d p q = rw (p, q) refl

found_key : (k : Key) (d e : Deployment) → found k d ≡ ok e → key_of e.meta ≡ k
found_key k d e h = elim (Bool-cases (d.meta.namespace == k.namespace)) [
  | inl p ↦ elim (Bool-cases (d.meta.name == k.name)) [
    | inl q ↦
        let same = ok-injective (rw (p, q) at h) in
        ap (λ (x : Deployment). key_of x.meta) (sym same)
        ∙ same_key d.meta.namespace k.namespace d.meta.name k.name (str_eq→eq _ _ p)
            (str_eq→eq _ _ q)
    | inr q ↦ cc (rw (p, q) at h)
  ]
  | inr p ↦ cc (rw p at h)
]

found_itself : (d : Deployment) → found (key_of d.meta) d ≡ ok d
found_itself d =
    rw (eq→str_eq d.meta.namespace d.meta.namespace refl, eq→str_eq d.meta.name d.meta.name refl)
      refl

pub cluster_coherent : IsCoherent cluster (λ w. w.sent)
cluster_coherent = record {
  clock_sent = λ w. refl;
  get_sent = λ k w. refl;
  patch_sent = λ d w. refl;
  clock_reads = λ k w. refl;
  get_reads = λ j k w. refl;
  get_key = λ k w d h. found_key k w.deployment d h;
  patch_reads = λ d e w h. found_itself d ∙ h;
  patch_keeps = λ d e w h.
      let same = ok-injective h in
      (
        ap (λ (x : Deployment). x.meta.uid) (sym same),
        λ k. ap (λ (x : Deployment). read x.template_annotations k) (sym same),
      );
}

abbrev pub spec_digest : AgentActionSpec → String
spec_digest spec = spec.action_type +++ "/" +++ spec.target.name

abbrev pub restart_spec : AgentActionSpec
restart_spec = record {
  target = record {
    cluster = "";
    namespace = "shop";
    kind = "Deployment";
    name = "web";
    api_version = "apps/v1";
    service = "";
  };
  action_type = "kubernetes.rolloutRestart";
  parameters = [];
  approved_by = "";
  dry_run_result = "";
  ttl_seconds = pos 60;
  approval_timeout_seconds = pos 300;
  rollback_plan = [];
}

abbrev pub approval_of : Bool → String → AgentActionApprovalStatus
approval_of approved digest = record {
  approved = approved;
  approved_by = "";
  source = "ManualApprovalRequired";
  action_digest = digest;
  approved_generation = pos 1;
  approved_at = none;
  escalated_at = none;
  decided_at = none;
  decided_by = "";
}

abbrev pub action_with : AgentActionApprovalStatus → AgentAction
action_with approval = record {
  meta = named_object "shop" "restart-web" "uid-action" ((annotation_target_uid, "uid-web") ∷ []);
  spec = restart_spec;
  status = record {
    resource = record {
      phase = phase_waiting_approval;
      message = "waiting for human approval";
      observed_generation = pos 1;
      updated_at = pos 500;
    };
    finished_at = none;
    approval = some approval;
    notification = none;
    dry_run_result = none;
    execution = none;
    effectiveness = none;
  };
}

abbrev router : Router World
router = record {
  kubernetes = kubernetes_backend plain cluster;
  gitops = kubernetes_backend plain cluster;
  runbook = kubernetes_backend plain cluster;
  notify = kubernetes_backend plain cluster;
}

abbrev pub env : Env World
env = record {
  clock = λ w. (pos 2000, w);
  get_action = λ k w. (ok w.action, w);
  update_status = λ a w. (ok a, record w { action = a });
  delete_action = λ a w. (ok tt, w);
  get_risk_signal_evidence = λ k w. (err (not_found "no risk signal"), w);
  get_investigation = λ k w. (err (not_found "no investigation"), w);
  create_or_update = λ k change w. (err (other "no investigations"), w);
  set_controller_reference = λ a v. ok v;
  has_scheme = true;
  executor = some router;
  escalation = none;
  notifier = none;
  has_recorder = true;
  quote = plain;
  spec_digest = spec_digest;
  identity_digest = λ i. "sha256:" +++ i.action_ref;
  verification_digest = λ uid id. uid +++ id;
}

abbrev pub world_of : AgentAction → World
world_of action = record { action = action; deployment = web; sent = 0 }

abbrev pub start_of : AgentAction → State World
start_of action = record { world = world_of action; log = [] }

abbrev pub action_key : Key
action_key = record { namespace = "shop"; name = "restart-web" }
