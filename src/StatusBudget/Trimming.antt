-- ===== src/StatusBudget/Trimming.antt =====
-- The loop that sheds references and claims ends, within the budget or with nothing left to shed.
use fluxseer_rca.Base.{
  ℕ, zero, suc, ◌+◌, ◌≤◌, ◌<◌, List, [], ◌∷◌, none, some, Bool, true, false, ltb, ◌≡◌, refl, ap,
  ◌⊎◌, inl, inr, Bool-cases, length, arith,
}
use fluxseer_rca.Api.Evidence.{EvidenceRef}
use fluxseer_rca.Api.Investigation.{RcaClaim}
use fluxseer_rca.StatusBudget.Limits.{InvestigationStatus, max_status_bytes, drop_last, shed, trim}

length-drop_last : {A : Type 0} (x : A) (xs : List A) → length (drop_last (x ∷ xs)) ≡ length xs
length-drop_last x [] = refl
length-drop_last x (y ∷ ys) = ap suc (length-drop_last y ys)

module _ {R : Type 0} (size : InvestigationStatus R → ℕ) where
  -- Within the budget, or nothing left to shed.
  abbrev pub IsTrimmed : InvestigationStatus R → Type 0
  IsTrimmed s = (size s ≤ max_status_bytes) ⊎ ((s.evidence_refs ≡ []) × (s.claims ≡ []))

  -- What a run of the loop from `s` returns.
  pub record Trims (fuel : ℕ) (s : InvestigationStatus R) (marked : Bool) : Type 0 where
    pub result : InvestigationStatus R
    pub flag : Bool
    pub returns : trim size fuel s marked ≡ some (result, flag)
    pub trimmed : IsTrimmed result
    pub fewer_refs : length result.evidence_refs ≤ length s.evidence_refs
    pub fewer_claims : length result.claims ≤ length s.claims
    pub same : flag ≡ false → (result ≡ s) × (marked ≡ false)

  abbrev pub amount : InvestigationStatus R → ℕ
  amount s = length s.evidence_refs + length s.claims

  shed_cases :
      (s : InvestigationStatus R) (refs : List EvidenceRef) (claims : List RcaClaim)
      → s.evidence_refs ≡ refs
      → s.claims ≡ claims
      → ((shed s refs claims ≡ none) × ((refs ≡ []) × (claims ≡ [])))
        ⊎ ((t : InvestigationStatus R) × (shed s refs claims ≡ some t)
            × (length t.evidence_refs ≤ length s.evidence_refs)
            × (length t.claims ≤ length s.claims)
            × (amount t < amount s))
  shed_cases s [] [] p q = inl (refl, (refl, refl))
  shed_cases s [] (c ∷ cs) p q = inr (
    record s { claims = drop_last (c ∷ cs) },
    refl,
    omega arith,
    rw q omega (arith, length-drop_last c cs),
    rw (p, q) omega (arith, length-drop_last c cs),
  )
  shed_cases s (r ∷ rs) cs p q = inr (
    record s { evidence_refs = drop_last (r ∷ rs) },
    refl,
    rw p omega (arith, length-drop_last r rs),
    omega arith,
    rw p omega (arith, length-drop_last r rs),
  )

  pub trim_ends :
      (fuel : ℕ) (s : InvestigationStatus R) (marked : Bool) → amount s < fuel → Trims fuel s marked
  unfolding trim
  trim_ends zero s marked h = absurd (omega (arith, h))
  trim_ends (suc fuel) s marked h = elim (Bool-cases (ltb max_status_bytes (size s))) [
    | inr e ↦ record {
      result = s;
      flag = marked;
      returns = rw (trim, e) refl;
      trimmed = inl (ground arith);
      fewer_refs = omega arith;
      fewer_claims = omega arith;
      same = λ f. (refl, f);
    }
    | inl e ↦ elim (shed_cases s s.evidence_refs s.claims refl refl) [
      | inl (n, empty) ↦ record {
        result = s;
        flag = true;
        returns = rw (trim, e, n) refl;
        trimmed = inr empty;
        fewer_refs = omega arith;
        fewer_claims = omega arith;
        same = λ f. cc;
      }
      | inr (t, n, refs, claims, less) ↦
          let rest = trim_ends fuel t true (omega (arith, less, h)) in
          record {
            result = rest.result;
            flag = rest.flag;
            returns = rw (trim, e, n) rest.returns;
            trimmed = rest.trimmed;
            fewer_refs = omega (arith, rest.fewer_refs, refs);
            fewer_claims = omega (arith, rest.fewer_claims, claims);
            same = λ f. cc (rest.same f).1;
          }
    ]
  ]
