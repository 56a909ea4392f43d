-- ===== src/Controllers/Effectiveness/Verdict.antt =====
-- What a verdict of the effectiveness rests on.
use fluxseer_rca.Base.{
  String, Option, none, some, Bool, true, false, not, ◌||◌, ◌==◌, ℤ, pos, ltb_ℤ, eqb_ℤ, ◌≤ℤ◌, ◌<ℤ◌,
  ◌≡◌, refl, arith, if◌then◌else◌, str_eq→eq, str_ne→ne,
}
use fluxseer_rca.Api.Action.{EffectivenessHealthSnapshot}
use fluxseer_rca.Api.Investigation.{
  InvestigationRequest, investigation_no_issue_found, investigation_confirmed,
  investigation_inconclusive, investigation_unknown,
}
use fluxseer_rca.Executor.Contract.{HealthSnapshot}
use fluxseer_rca.Controllers.Effectiveness.{
  outcome_effective, outcome_ineffective, outcome_inconclusive, outcome_regressed, judge,
  evaluate_health, evaluate_effectiveness, materially_regressed, health_is_healthy, health_improved,
}

inconclusive_ne : ◌≡◌ {A = String} outcome_inconclusive outcome_effective → ⊥
inconclusive_ne = str_ne→ne outcome_inconclusive outcome_effective refl

ineffective_ne : ◌≡◌ {A = String} outcome_ineffective outcome_effective → ⊥
ineffective_ne = str_ne→ne outcome_ineffective outcome_effective refl

regressed_ne : ◌≡◌ {A = String} outcome_regressed outcome_effective → ⊥
regressed_ne = str_ne→ne outcome_regressed outcome_effective refl

judge_effective :
    (baseline : EffectivenessHealthSnapshot) (post : HealthSnapshot) (outcome : String)
    (no_issue confirmed unsure healthy improved : Bool)
    → (outcome == investigation_no_issue_found) ≡ no_issue
    → (outcome == investigation_confirmed) ≡ confirmed
    → (outcome == investigation_inconclusive || outcome == investigation_unknown) ≡ unsure
    → health_is_healthy post ≡ healthy
    → health_improved baseline post ≡ improved
    → (judge baseline post outcome).outcome ≡ outcome_effective
    → (no_issue ≡ true) × ((healthy ≡ true) × (improved ≡ true))
unfolding judge
judge_effective baseline post outcome true c u true true p q r s t h = (refl, (refl, refl))
judge_effective baseline post outcome true c u false i p q r s t h =
    absurd (ineffective_ne (rw (p, s) at h))
judge_effective baseline post outcome true c u true false p q r s t h =
    absurd (inconclusive_ne (rw (p, s, t) at h))
judge_effective baseline post outcome false true u w i p q r s t h =
    absurd (ineffective_ne (rw (p, q) at h))
judge_effective baseline post outcome false false true w i p q r s t h =
    absurd (inconclusive_ne (rw (p, q, r) at h))
judge_effective baseline post outcome false false false w i p q r s t h =
    absurd (inconclusive_ne (rw (p, q, r) at h))

health_effective :
    (baseline : EffectivenessHealthSnapshot) (post : HealthSnapshot) (observed : Bool)
    (outcome : String) (same regressed : Bool)
    → eqb_ℤ post.desired_replicas baseline.desired_replicas ≡ same
    → materially_regressed baseline post ≡ regressed
    → (evaluate_health baseline post observed outcome).outcome ≡ outcome_effective
    → (observed ≡ true)
      × ((same ≡ true)
          × ((regressed ≡ false) × ((judge baseline post outcome).outcome ≡ outcome_effective)))
unfolding evaluate_health
health_effective baseline post false outcome same regressed p q h = absurd (inconclusive_ne h)
health_effective baseline post true outcome false regressed p q h =
    absurd (inconclusive_ne (rw p at h))
health_effective baseline post true outcome true true p q h = absurd (regressed_ne (rw (p, q) at h))
health_effective baseline post true outcome true false p q h =
    (refl, (refl, (refl, rw (p, q) at h)))

-- The workload after the action is no worse than before it, and up to its desired size.
unfoldable pub IsRecovered : EffectivenessHealthSnapshot → HealthSnapshot → Type 0
IsRecovered baseline post =
    (baseline.available_replicas ≤ℤ post.available_replicas)
    × ((baseline.ready_replicas ≤ℤ post.ready_replicas)
        × ((baseline.updated_replicas ≤ℤ post.updated_replicas)
            × (pos 0 <ℤ post.desired_replicas
                → (post.desired_replicas ≤ℤ post.available_replicas)
                  × ((post.desired_replicas ≤ℤ post.ready_replicas)
                      × (post.desired_replicas ≤ℤ post.updated_replicas)))))

not_below :
    (a b c d e f : ℤ) (rest : Bool)
    → (if ltb_ℤ a b || (ltb_ℤ c d || ltb_ℤ e f) then true else rest) ≡ false
    → (b ≤ℤ a) × ((d ≤ℤ c) × (f ≤ℤ e))
not_below a b c d e f rest h = (ground arith, (ground arith, ground arith))

up_to_size :
    (desired a c e : ℤ) (rest : Bool)
    → (if not (ltb_ℤ (pos 0) desired)
        then true
        else if ltb_ℤ a desired || (ltb_ℤ c desired || ltb_ℤ e desired)
        then false
        else rest)
      ≡ true
    → pos 0 <ℤ desired
    → (desired ≤ℤ a) × ((desired ≤ℤ c) × (desired ≤ℤ e))
up_to_size desired a c e rest h p = (ground arith, (ground arith, ground arith))

IsRecovered-of_tests :
    (baseline : EffectivenessHealthSnapshot) (post : HealthSnapshot)
    → materially_regressed baseline post ≡ false
    → health_is_healthy post ≡ true
    → IsRecovered baseline post
unfolding IsRecovered materially_regressed health_is_healthy
IsRecovered-of_tests baseline post h k =
    let (p, (q, r)) =
      not_below post.available_replicas baseline.available_replicas post.ready_replicas
        baseline.ready_replicas post.updated_replicas baseline.updated_replicas _ h in
    (
      p,
      (
        q,
        (
          r,
          λ positive.
              up_to_size post.desired_replicas post.available_replicas post.ready_replicas
                post.updated_replicas _ k positive,
        ),
      ),
    )

-- An action is found effective only where its health was observed and the replicas wanted are
-- those of the baseline, the investigation found no issue, no replica count fell below the
-- baseline's, and all counts reach the desired one.
pub evaluate_effectiveness-IsRecovered :
    (baseline : Option EffectivenessHealthSnapshot) (post : HealthSnapshot) (observed : Bool)
    (verification : Option InvestigationRequest)
    → (evaluate_effectiveness baseline post observed verification).outcome ≡ outcome_effective
    → (b : EffectivenessHealthSnapshot) × ((v : InvestigationRequest) × ((baseline ≡ some b)
          × ((verification ≡ some v)
              × ((observed ≡ true)
                  × ((eqb_ℤ post.desired_replicas b.desired_replicas ≡ true)
                      × ((v.outcome ≡ investigation_no_issue_found) × IsRecovered b post))))))
unfolding evaluate_effectiveness
evaluate_effectiveness-IsRecovered none post observed verification h = absurd (inconclusive_ne h)
evaluate_effectiveness-IsRecovered (some b) post observed none h = absurd (inconclusive_ne h)
evaluate_effectiveness-IsRecovered (some b) post observed (some v) h =
    let (o, (d, (r, j))) = health_effective b post observed v.outcome _ _ refl refl h in
    let (n, (k, i)) = judge_effective b post v.outcome _ _ _ _ _ refl refl refl refl refl j in
    (
      b,
      (
        v,
        (
          refl,
          (
            refl,
            (
              o,
              (
                d,
                (
                  str_eq→eq v.outcome investigation_no_issue_found n,
                  IsRecovered-of_tests b post r k,
                ),
              ),
            ),
          ),
        ),
      ),
    )
