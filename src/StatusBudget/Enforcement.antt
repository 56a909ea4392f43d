-- ===== src/StatusBudget/Enforcement.antt =====
-- What the enforcement of the budget leaves of a status.
use fluxseer_rca.Base.{
  ℕ, zero, suc, ◌+◌, ◌≤◌, String, List, [], ◌∷◌, Option, none, some, Bool, true, false, ◌||◌, ltb,
  ◌≡◌, refl, ap, ◌∙◌, length, take, any, length-take-le, map, arith,
}
use fluxseer_rca.Api.Evidence.{EvidenceRef}
use fluxseer_rca.Api.Investigation.{RcaClaim}
use fluxseer_rca.StatusBudget.Limits.{
  InvestigationStatus, max_claims, max_evidence_refs, max_summary_bytes, max_claim_statement_bytes,
  cut, is_cut, cut_some, is_some_cut, cut_claim, is_claim_cut, compact_evidence_ref,
  compact_evidence_refs, refs_after, cut_fields, is_any_cut, enforce_investigation_status,
}
use fluxseer_rca.StatusBudget.Truncation.{truncate_utf8-IsLongestPrefix}
use fluxseer_rca.StatusBudget.Trimming.{IsTrimmed, trim_ends}

length-map : {A B : Type 0} (f : A → B) (xs : List A) → length (map f xs) ≡ length xs
length-map f [] = refl
length-map f (x ∷ xs) = ap suc (length-map f xs)

take_all : {A : Type 0} (n : ℕ) (xs : List A) → ltb n (length xs) ≡ false → take n xs ≡ xs
take_all zero [] h = refl
take_all zero (x ∷ xs) h = absurd (ground arith)
take_all (suc n) [] h = refl
take_all (suc n) (x ∷ xs) h = ap (◌∷◌ x) (take_all n xs (ground arith))

or_false : (a b : Bool) → (a || b) ≡ false → (a ≡ false) × (b ≡ false)
or_false true b h = cc
or_false false b h = (refl, h)

cut_same : (n : ℕ) (s : String) → is_cut n s ≡ false → cut n s ≡ s
cut_same n s h = (truncate_utf8-IsLongestPrefix s n).1.0 h

cut_some_same : (n : ℕ) (s : Option String) → is_some_cut n s ≡ false → cut_some n s ≡ s
cut_some_same n none h = refl
cut_some_same n (some s) h = ap some (cut_same n s h)

cut_claims_same :
    (claims : List RcaClaim) → any is_claim_cut claims ≡ false → map cut_claim claims ≡ claims
cut_claims_same [] h = refl
cut_claims_same (c ∷ cs) h =
    let (p, q) = or_false (is_claim_cut c) (any is_claim_cut cs) h in
    rw (cut_same max_claim_statement_bytes c.statement p, cut_claims_same cs q) refl

refs_same :
    (refs : List EvidenceRef) (r : List EvidenceRef × Bool) → r.1 ≡ false → refs_after refs r ≡ refs
refs_same refs (rs, true) h = cc
refs_same refs (rs, false) h = refl

few_refs : (refs : List EvidenceRef) → length (compact_evidence_refs refs).0 ≤ max_evidence_refs
unfolding compact_evidence_refs
few_refs refs = omega (
  arith,
  length-map (λ (r : EvidenceRef × Bool). r.0)
      (map compact_evidence_ref (take max_evidence_refs refs)),
  length-map compact_evidence_ref (take max_evidence_refs refs),
  length-take-le max_evidence_refs refs,
)

few_unless_cut :
    (refs : List EvidenceRef)
    → (compact_evidence_refs refs).1 ≡ false
    → length refs ≤ max_evidence_refs
unfolding compact_evidence_refs
few_unless_cut refs h =
    let p = (or_false (ltb max_evidence_refs (length refs)) _ h).0 in ground (arith, p)

few_after :
    (refs : List EvidenceRef) (r : List EvidenceRef × Bool)
    → length r.0 ≤ max_evidence_refs
    → (r.1 ≡ false → length refs ≤ max_evidence_refs)
    → length (refs_after refs r) ≤ max_evidence_refs
few_after refs (rs, true) p q = p
few_after refs (rs, false) p q = q refl

module _ {R : Type 0} (size : InvestigationStatus R → ℕ) where
  -- The limits that a status is held to.
  pub record IsWithin (s : InvestigationStatus R) : Type 0 where
    pub claims : length s.claims ≤ max_claims
    pub refs : length s.evidence_refs ≤ max_evidence_refs
    pub total : IsTrimmed size s

  cut_fields_same : (s : InvestigationStatus R) → is_any_cut s ≡ false → cut_fields s ≡ s
  unfolding cut_fields is_any_cut
  cut_fields_same s h =
      let (a, h1) = or_false _ _ h in
      let (b, h2) = or_false _ _ h1 in
      let (c, h3) = or_false _ _ h2 in
      let (d, h4) = or_false _ _ h3 in
      let (e, h5) = or_false _ _ h4 in
      let (f, g) = or_false _ _ h5 in
      rw
        (
          cut_same max_summary_bytes s.summary a,
          cut_same max_summary_bytes s.hypothesis b,
          cut_some_same max_summary_bytes s.verdict_summary c,
          cut_some_same max_summary_bytes s.failure_message d,
          cut_claims_same s.claims e,
          take_all max_claims s.claims f,
          refs_same s.evidence_refs (compact_evidence_refs s.evidence_refs) g,
        )
        refl

  -- The enforcement of the budget always ends. What it leaves has at most 16 claims and 32
  -- references, and either its JSON text fits into 65,536 bytes or it has neither claims nor
  -- references left; and where it reports that nothing was cut, the status is what it was.
  pub enforce_investigation_status-IsWithin :
      (s : InvestigationStatus R)
      → (t : InvestigationStatus R) × (flag : Bool) × (enforce_investigation_status size s
          ≡ some (t, flag))
        × IsWithin t
        × (flag ≡ false → t ≡ s)
  unfolding enforce_investigation_status cut_fields
  enforce_investigation_status-IsWithin s =
      let start = cut_fields s in
      let run =
        trim_ends size (suc (length start.evidence_refs + length start.claims)) start (is_any_cut s)
          (omega arith) in
      (
        run.result,
        run.flag,
        run.returns,
        record {
          claims =
              omega (arith, run.fewer_claims, length-take-le max_claims (map cut_claim s.claims));
          refs = omega (
            arith,
            run.fewer_refs,
            few_after s.evidence_refs (compact_evidence_refs s.evidence_refs)
                (few_refs s.evidence_refs) (few_unless_cut s.evidence_refs),
          );
          total = run.trimmed;
        },
        λ f. (run.same f).0 ∙ cut_fields_same s (run.same f).1,
      )
