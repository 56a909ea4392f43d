-- ===== src/Executor/Coherence.antt =====
-- What the API server and the client are asked to keep to, and when a restart is due.
use fluxseer_rca.Base.{
  ℕ, suc, not, String, [], ◌∷◌, Option, none, some, Bool, true, false, ◌≡◌, refl, arith, ◌==◌, ◌!=◌,
  eq→str_eq, eq_iff, if◌then◌else◌,
}
use fluxseer_rca.Api.Meta.{StringMap, lookup, read, assign, Result, ok, err, Error, Key, key_of}
use fluxseer_rca.Executor.Contract.{ExecutorRequest}
use fluxseer_rca.Executor.Kubernetes.{
  Deployment, KubernetesClient, annotate, is_recorded, target_key,
}

-- Reading a map that was written.
pub read-assign :
    (k j v : String) (m : StringMap) → read (assign k v m) j ≡ (if k == j then v else read m j)
unfolding read lookup assign
read-assign k j v [] = ground (arith, eq_iff k j)
read-assign k j v ((i, w) ∷ m) =
    ground (arith, eq_iff k j, eq_iff i k, eq_iff i j, read-assign k j v m)

-- Once recorded, an execution is seen as recorded.
pub annotate-is_recorded :
    (action : ExecutorRequest) (d : Deployment) → is_recorded action (annotate action d) ≡ true
unfolding is_recorded annotate
annotate-is_recorded action d = rw read-assign (eq→str_eq _ _ refl)

-- What is asked of the API server and its client: `sent` counts the patches; a read or a look at the
-- clock changes no deployment; a deployment that a patch stored is read back, with its UID and its
-- annotations.
pub record IsCoherent {W : Type 0} (client : KubernetesClient W) (sent : W → ℕ) : Type 0 where
  pub clock_sent : (w : W) → sent (client.clock w).1 ≡ sent w
  pub get_sent : (k : Key) (w : W) → sent (client.get_deployment k w).1 ≡ sent w
  pub patch_sent : (d : Deployment) (w : W) → sent (client.patch_deployment d w).1 ≡ suc (sent w)
  pub clock_reads :
      (k : Key) (w : W)
      → (client.get_deployment k (client.clock w).1).0 ≡ (client.get_deployment k w).0
  pub get_reads :
      (j k : Key) (w : W)
      → (client.get_deployment k (client.get_deployment j w).1).0 ≡ (client.get_deployment k w).0
  pub get_key :
      (k : Key) (w : W) (d : Deployment) → (client.get_deployment k w).0 ≡ ok d → key_of d.meta ≡ k
  pub patch_reads :
      (d d' : Deployment) (w : W)
      → (client.patch_deployment d w).0 ≡ ok d'
      → (client.get_deployment (key_of d.meta) (client.patch_deployment d w).1).0 ≡ ok d'
  pub patch_keeps :
      (d d' : Deployment) (w : W)
      → (client.patch_deployment d w).0 ≡ ok d'
      → (d'.meta.uid ≡ d.meta.uid)
        × ((k : String) → read d'.template_annotations k ≡ read d.template_annotations k)

-- The target as it is read now.
abbrev pub target_now : {W : Type 0} → KubernetesClient W → ExecutorRequest → W → Result Deployment
target_now client action w = (client.get_deployment (target_key action) w).0

-- A patch is due: the request is valid, the target is the one meant, and the execution is not
-- recorded on it.
abbrev pub is_due : ExecutorRequest → Option Error → Result Deployment → Bool
is_due action (some e) r = false
is_due action none (err e) = false
is_due action none (ok d) =
    if d.meta.uid != action.target_uid then false else not (is_recorded action d)
