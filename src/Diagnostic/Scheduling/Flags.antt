-- ===== src/Diagnostic/Scheduling/Flags.antt =====
-- What the flags of a survey count: the observations that report what blocks their Pod.
use fluxseer_rca.Base.{
  String, List, [], ◌∷◌, Option, none, some, Bool, true, false, ◌&&◌, ◌||◌, ◌≡◌, inl, inr, refl,
  sym, ◌∙◌, ap, Char, arith, Bool-cases, any, is_none,
}
use fluxseer_rca.Diagnostic.Types.{CandidateClaim, SchedulingObservation}
use fluxseer_rca.Diagnostic.Scheduling.{
  Survey, skip_reason, append_claim, append_claims, warned, is_unschedulable,
}
use fluxseer_rca.Diagnostic.Scheduling.Evaluate.{
  survey_node, survey_gates, survey_failure, survey_blocks, survey_state, survey_observation,
  survey_all,
}

unfoldable pub flagged : Survey → Bool
flagged s = s.observed_failure || s.observed_gate

append_claim-flagged : (s : Survey) (c : CandidateClaim) → flagged (append_claim s c) ≡ flagged s
unfolding append_claim flagged
append_claim-flagged s c = ground arith

append_claims-flagged :
    (s : Survey) (cs : List CandidateClaim) → flagged (append_claims s cs) ≡ flagged s
unfolding append_claims
append_claims-flagged s [] = refl
append_claims-flagged s (c ∷ cs) =
    append_claims-flagged (append_claim s c) cs ∙ append_claim-flagged s c

unfoldable pub has_gate : List String → Bool
has_gate [] = false
has_gate (g ∷ gs) = true

or_false : (b : Bool) → b ≡ (b || false)
or_false true = refl
or_false false = refl

pub or_true : (b : Bool) → true ≡ (b || true)
or_true true = refl
or_true false = refl

or_assoc : (a b c : Bool) → ((a || b) || c) ≡ (a || (b || c))
or_assoc true b c = refl
or_assoc false b c = refl

survey_node-flagged :
    (s : Survey) (o : SchedulingObservation) → flagged (survey_node s o) ≡ flagged s
unfolding survey_node flagged append_claim
survey_node-flagged s o = ground arith

survey_gates-flagged :
    (s : Survey) (o : SchedulingObservation) (gates : List String)
    → flagged (survey_gates s o gates) ≡ (flagged s || has_gate gates)
unfolding survey_gates has_gate flagged
survey_gates-flagged s o [] = or_false _
survey_gates-flagged s o (g ∷ gs) =
    append_claim-flagged _ _ ∙ sym (or_true s.observed_failure) ∙ or_true (flagged s)

module _ (beyond : Char → Char) where
  survey_failure-flagged :
      (s : Survey) (o : SchedulingObservation)
      → flagged (survey_failure beyond s o) ≡ (flagged s || is_unschedulable beyond o)
  unfolding survey_failure flagged
  survey_failure-flagged s o = elim (Bool-cases (is_unschedulable beyond o)) [
    | inl e ↦ rw (survey_failure, e) (append_claims-flagged _ _ ∙ or_true (flagged s))
    | inr e ↦ rw (survey_failure, e) (or_false (flagged s))
  ]

  -- The gates and the failure of an observation count where it is usable and not truncated.
  unfoldable pub blocked : SchedulingObservation → Bool → Bool
  blocked o true = false
  blocked o false = has_gate o.scheduling_gates || is_unschedulable beyond o

  module _ (quote : String → String) where
    unfoldable pub reports : SchedulingObservation → Bool
    reports o = is_none (skip_reason quote o) && blocked o o.truncated

    survey_blocks-flagged :
        (s : Survey) (o : SchedulingObservation) (truncated : Bool)
        → flagged (survey_blocks quote beyond s o truncated) ≡ (flagged s || blocked o truncated)
    unfolding survey_blocks warned blocked flagged
    survey_blocks-flagged s o true = or_false _
    survey_blocks-flagged s o false =
        survey_failure-flagged _ o
        ∙ rw (survey_gates-flagged s o o.scheduling_gates)
            (or_assoc (flagged s) (has_gate o.scheduling_gates) (is_unschedulable beyond o))

    survey_observation-flagged :
        (s : Survey) (o : SchedulingObservation) (skip : Option String)
        → flagged (survey_observation quote beyond s o skip)
          ≡ (flagged s || (is_none skip && blocked o o.truncated))
    unfolding survey_observation survey_state warned flagged
    survey_observation-flagged s o (some w) = or_false _
    survey_observation-flagged s o none =
        survey_blocks-flagged (survey_node s o) o o.truncated
        ∙ ap (λ b. b || blocked o o.truncated) (survey_node-flagged s o)

    pub survey_all-flagged :
        (s : Survey) (os : List SchedulingObservation)
        → flagged (survey_all quote beyond s os) ≡ (flagged s || any reports os)
    unfolding survey_all reports
    survey_all-flagged s [] = or_false _
    survey_all-flagged s (o ∷ os) =
        survey_all-flagged (survey_observation quote beyond s o (skip_reason quote o)) os
        ∙ ap (λ b. b || any reports os) (survey_observation-flagged s o (skip_reason quote o))
        ∙ or_assoc (flagged s) (reports o) (any reports os)
