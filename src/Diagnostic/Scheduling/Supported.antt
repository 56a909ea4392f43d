-- ===== src/Diagnostic/Scheduling/Supported.antt =====
-- Every claim of the scheduling diagnostic is drawn from an observation that carries it.
use fluxseer_rca.Base.{
  String, List, [], ◌∷◌, none, Bool, true, false, not, ◌||◌, ◌==◌, ◌≡◌, ◌≢◌, ◌⊎◌, inl, inr, refl,
  sym, Char, trim_space, arith, All, has_text, map, ◌++◌, Bool-cases, Option-cases, str_eq→eq,
}
use fluxseer_rca.Diagnostic.Types.{
  CandidateClaim, SchedulingObservation, claim_observation, claim_failure_mechanism,
  claim_root_cause, coverage_unavailable, coverage_truncated, coverage_unauthorized,
  coverage_collection_failed,
}
use fluxseer_rca.Diagnostic.Scheduling.{
  Survey, scheduling_evidence_refs, skip_reason, is_unavailable, has_state, claim_of, append_claim,
  append_claims, warned, is_unschedulable, scheduling_candidates, cause_of,
}
use fluxseer_rca.Diagnostic.Scheduling.Evaluate.{
  survey_node, survey_gates, survey_failure, survey_blocks, survey_state, survey_observation,
  survey_all,
}

-- The observation tells of a known Pod, is fresh, and its state was collected.
pub record IsUsable (o : SchedulingObservation) : Type 0 where
  pub known : (trim_space o.pod_uid == "") ≡ false
  pub fresh : o.stale ≡ false
  pub authorized : (o.coverage == coverage_unauthorized) ≡ false
  pub available : (o.coverage == coverage_unavailable) ≡ false
  pub succeeded : (o.coverage == coverage_collection_failed) ≡ false
  pub collected : (o.state_collected || not (o.coverage == coverage_truncated)) ≡ true

-- A gate holds the Pod, or its scheduling is reported to have failed.
abbrev pub Blocks : (Char → Char) → SchedulingObservation → Type 0
Blocks beyond o = (o.scheduling_gates ≢ []) ⊎ (is_unschedulable beyond o ≡ true)

-- What the type of a claim asks of the observation.
abbrev pub Shows : (Char → Char) → SchedulingObservation → String → Type 0
Shows beyond o type =
    ((type ≡ claim_observation) × (trim_space o.node_name ≡ ""))
    ⊎ (((type ≡ claim_failure_mechanism) × (o.truncated ≡ false) × Blocks beyond o)
        ⊎ ((type ≡ claim_root_cause) × (o.truncated ≡ false) × (is_unschedulable beyond o ≡ true)))

pub record IsDrawnFrom (beyond : Char → Char) (o : SchedulingObservation) (c : CandidateClaim)
    : Type 0 where
  pub usable : IsUsable o
  pub target : c.target_uid ≡ trim_space o.pod_uid
  pub refs : c.evidence_refs ≡ scheduling_evidence_refs o
  pub shows : Shows beyond o c.type

pub usable :
    (quote : String → String) (o : SchedulingObservation) → skip_reason quote o ≡ none → IsUsable o
unfolding skip_reason is_unavailable has_state
usable quote o h = record {
  known = ground arith;
  fresh = ground arith;
  authorized = ground arith;
  available = ground arith;
  succeeded = ground arith;
  collected = ground arith;
}

pub not_skipped :
    (quote : String → String) (o : SchedulingObservation) → IsUsable o → skip_reason quote o ≡ none
unfolding skip_reason is_unavailable has_state
not_skipped quote o u =
    rw (u.known, u.fresh, u.authorized, u.available, u.succeeded, u.collected) refl

append-All :
    {A : Type 0} (P : A → Type 0) (xs : List A) (x : A) → All P xs → P x → All P (xs ++ x ∷ [])
append-All P [] x h p = (p, tt)
append-All P (y ∷ ys) x h p = (h.0, append-All P ys x h.1 p)

module _ (P : CandidateClaim → Type 0) where
  append_claim-All :
      (s : Survey) (c : CandidateClaim) → All P s.claims → P c → All P (append_claim s c).claims
  unfolding append_claim
  append_claim-All s c h p = elim (Bool-cases (c.id == "")) [
    | inl e ↦ rw e h
    | inr e ↦ elim (Bool-cases (has_text c.id (map (λ d. d.id) s.claims))) [
      | inl k ↦ rw (e, k) h
      | inr k ↦ rw (e, k) (append-All P s.claims c h p)
    ]
  ]

  append_claims-All :
      (s : Survey) (cs : List CandidateClaim)
      → All P s.claims
      → All P cs
      → All P (append_claims s cs).claims
  unfolding append_claims
  append_claims-All s [] h k = h
  append_claims-All s (c ∷ cs) h k =
      append_claims-All (append_claim s c) cs (append_claim-All s c h k.0) k.1

cause_of-All :
    (P : CandidateClaim → Type 0) (o : SchedulingObservation)
    → ((id statement : String) → P (claim_of o id claim_root_cause statement))
    → (b : Bool) (id statement : String) (rest : List CandidateClaim) → All P rest
    → All P (cause_of o b id statement rest)
unfolding cause_of
cause_of-All P o f true id statement rest h = (f id statement, h)
cause_of-All P o f false id statement rest h = h

scheduling_candidates-All :
    (beyond : Char → Char) (P : CandidateClaim → Type 0) (o : SchedulingObservation) (said : String)
    → ((id statement : String) → P (claim_of o id claim_root_cause statement))
    → All P (scheduling_candidates beyond o said)
unfolding scheduling_candidates
scheduling_candidates-All beyond P o said f = search (cause_of-All P o f)

module _ (beyond : Char → Char) (P : CandidateClaim → Type 0) where
  abbrev Carried : SchedulingObservation → Type 0
  Carried o = (c : CandidateClaim) → IsDrawnFrom beyond o c → P c

  survey_node-All :
      (s : Survey) (o : SchedulingObservation)
      → Carried o
      → IsUsable o
      → All P s.claims
      → All P (survey_node s o).claims
  unfolding survey_node
  survey_node-All s o f u h = elim (Bool-cases (trim_space o.node_name == "")) [
    | inl e ↦ rw e (
        append_claim-All P _ _ h (
          f _ (record {
            usable = u;
            target = refl;
            refs = refl;
            shows = inl (refl, str_eq→eq _ _ e);
          })))
    | inr e ↦ rw e h
  ]

  survey_gates-All :
      (s : Survey) (o : SchedulingObservation) (gates : List String)
      → gates ≡ o.scheduling_gates
      → Carried o
      → IsUsable o
      → o.truncated ≡ false
      → All P s.claims
      → All P (survey_gates s o gates).claims
  unfolding survey_gates
  survey_gates-All s o [] g f u t h = h
  survey_gates-All s o (x ∷ xs) g f u t h = append_claim-All P _ _ h (
      f _ (record {
        usable = u;
        target = refl;
        refs = refl;
        shows = inr (inl (refl, t, inl (λ e. cc)));
      }))

  survey_failure-All :
      (s : Survey) (o : SchedulingObservation)
      → Carried o
      → IsUsable o
      → o.truncated ≡ false
      → All P s.claims
      → All P (survey_failure beyond s o).claims
  unfolding survey_failure
  survey_failure-All s o f u t h = elim (Bool-cases (is_unschedulable beyond o)) [
    | inl e ↦
        rw (survey_failure, e)
          (append_claims-All P _ _ h (
            f _ (record {
              usable = u;
              target = refl;
              refs = refl;
              shows = inr (inl (refl, t, inr e));
            }),
            scheduling_candidates-All beyond P o _ (λ id statement. f _ (record {
              usable = u;
              target = refl;
              refs = refl;
              shows = inr (inr (refl, t, e));
            })),
          ))
    | inr e ↦ rw (survey_failure, e) h
  ]

  survey_blocks-All :
      (quote : String → String) (s : Survey) (o : SchedulingObservation) (truncated : Bool)
      → truncated ≡ o.truncated
      → Carried o
      → IsUsable o
      → All P s.claims
      → All P (survey_blocks quote beyond s o truncated).claims
  unfolding survey_blocks warned
  survey_blocks-All quote s o true t f u h = h
  survey_blocks-All quote s o false t f u h =
      survey_failure-All _ o f u (sym t)
        (survey_gates-All s o o.scheduling_gates refl f u (sym t) h)

  survey_state-All :
      (quote : String → String) (s : Survey) (o : SchedulingObservation)
      → Carried o
      → IsUsable o
      → All P s.claims
      → All P (survey_state quote beyond s o).claims
  unfolding survey_state
  survey_state-All quote s o f u h =
      survey_blocks-All quote (survey_node s o) o o.truncated refl f u (survey_node-All s o f u h)

  pub survey_all-All :
      (quote : String → String) (s : Survey) (os : List SchedulingObservation)
      → All Carried os
      → All P s.claims
      → All P (survey_all quote beyond s os).claims
  unfolding survey_all survey_observation warned
  survey_all-All quote s [] f h = h
  survey_all-All quote s (o ∷ os) f h = elim (Option-cases (skip_reason quote o)) [
    | inl e ↦
        rw (survey_all, e)
          (survey_all-All quote _ os f.1 (survey_state-All quote s o f.0 (usable quote o e) h))
    | inr (w, e) ↦ rw (survey_all, e) (survey_all-All quote (warned s w) os f.1 h)
  ]
