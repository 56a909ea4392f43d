-- ===== src/Diagnostic/Accounted.antt =====
-- Each candidate is accounted for once, and each claim is proposed once.
use fluxseer_rca.Base.{
  ℕ, suc, ◌+◌, String, List, [], ◌∷◌, Option, none, some, Bool, true, false, ◌≡◌, refl, ap, ◌∙◌,
  ◌⊎◌, inl, inr, Bool-cases, Option-cases, Char, eqb, arith, All, map, length, All-sort_stable,
  length-sort_stable,
}
use fluxseer_rca.Diagnostic.Types.{CandidateRecord, CandidateResolution, DispositionSummary}
use fluxseer_rca.Diagnostic.Candidates.{
  Digests, validate_candidate, validate_refs, candidate_problem, normalize_candidate_record,
  check_refs, ref_problem, identity_of, proposed_claim, retained_hypothesis, rejected_candidate,
  deduplicated,
}
use fluxseer_rca.Diagnostic.Accounting.{
  AccountingItem, resolution_before, has_conflict, reject_conflict, resolve_duplicate, resolve_item,
  summarize_dispositions, item_of, items_from, judged_items, resolutions_of, account_candidates,
}

length-map : {A B : Type 0} (f : A → B) (xs : List A) → length (map f xs) ≡ length xs
length-map f [] = refl
length-map f (x ∷ xs) = ap suc (length-map f xs)

-- One of the four dispositions.
abbrev pub IsDisposition : String → Type 0
IsDisposition d =
    (d ≡ proposed_claim)
    ⊎ ((d ≡ retained_hypothesis) ⊎ ((d ≡ rejected_candidate) ⊎ (d ≡ deduplicated)))

abbrev sum_of : DispositionSummary → ℕ
sum_of s =
    s.proposed_claim_count + s.retained_hypothesis_count + s.rejected_candidate_count
    + s.deduplicated_count

counted :
    (rs : List CandidateResolution)
    → All (λ r. IsDisposition r.disposition) rs
    → sum_of (summarize_dispositions rs) ≡ length rs
unfolding summarize_dispositions
counted [] h = refl
counted (r ∷ rs) h = elim h.0 [
  | inl e ↦ rw e omega (arith, counted rs h.1)
  | inr (inl e) ↦ rw e omega (arith, counted rs h.1)
  | inr (inr (inl e)) ↦ rw e omega (arith, counted rs h.1)
  | inr (inr (inr e)) ↦ rw e omega (arith, counted rs h.1)
]

abbrev Classed : AccountingItem → Type 0
Classed i = IsDisposition i.resolution.disposition

module _ (digests : Digests) (beyond : Char → Char) where
  check_refs-IsDisposition :
      (r : CandidateRecord) (refs : List String) (incomplete : Bool)
      → IsDisposition (check_refs digests beyond r refs incomplete).0
  unfolding check_refs
  check_refs-IsDisposition r [] true = inr (inl refl)
  check_refs-IsDisposition r [] false = inl refl
  check_refs-IsDisposition r (ref ∷ refs) incomplete =
      elim (Option-cases (ref_problem digests beyond r ref (identity_of ref r.evidence))) [
        | inl e ↦ rw (check_refs, e) (check_refs-IsDisposition r refs _)
        | inr (why, e) ↦ rw (check_refs, e) (inr (inr (inl refl)))
      ]

  validate_refs-IsDisposition :
      (r : CandidateRecord) (refs : List String)
      → IsDisposition (validate_refs digests beyond r refs).0
  unfolding validate_refs
  validate_refs-IsDisposition r [] = inr (inl refl)
  validate_refs-IsDisposition r (ref ∷ refs) = check_refs-IsDisposition r (ref ∷ refs) false

  validate-IsDisposition :
      (r : CandidateRecord) → IsDisposition (validate_candidate digests beyond r).0
  unfolding validate_candidate
  validate-IsDisposition r = elim (Option-cases (candidate_problem r)) [
    | inr (why, e) ↦ rw (validate_candidate, e) (inr (inr (inl refl)))
    | inl e ↦ rw (validate_candidate, e) (validate_refs-IsDisposition r r.candidate.evidence_refs)
  ]

  item_of-IsDisposition :
      (n : ℕ) (r : CandidateRecord)
      → IsDisposition (item_of digests beyond n r).resolution.disposition
  unfolding item_of
  item_of-IsDisposition n r = validate-IsDisposition (normalize_candidate_record r)

  items-Classed : (n : ℕ) (rs : List CandidateRecord) → All Classed (items_from digests beyond n rs)
  unfolding items_from
  items-Classed n [] = tt
  items-Classed n (r ∷ rs) = (item_of-IsDisposition n r, items-Classed (suc n) rs)

  length-items_from :
      (n : ℕ) (rs : List CandidateRecord) → length (items_from digests beyond n rs) ≡ length rs
  unfolding items_from
  length-items_from n [] = refl
  length-items_from n (r ∷ rs) = ap suc (length-items_from (suc n) rs)

reject-Classed :
    (items : List AccountingItem) (i : AccountingItem)
    → Classed i
    → Classed (reject_conflict items i)
unfolding reject_conflict
reject-Classed items i h = elim (Bool-cases (has_conflict items i)) [
  | inl e ↦ rw e (inr (inr (inl refl)))
  | inr e ↦ rw e h
]

duplicate-Classed :
    (i : AccountingItem) (c : Option AccountingItem)
    → Classed i
    → IsDisposition (resolve_duplicate i c).disposition
unfolding resolve_duplicate
duplicate-Classed i none h = h
duplicate-Classed i (some c) h = elim (Bool-cases (eqb c.index i.index)) [
  | inl e ↦ rw e (inl refl)
  | inr e ↦ rw e (inr (inr (inr refl)))
]

resolve-Classed :
    (items : List AccountingItem) (i : AccountingItem)
    → Classed i
    → IsDisposition (resolve_item items i).disposition
unfolding resolve_item
resolve-Classed items i h = elim (Bool-cases i.eligible) [
  | inl e ↦ rw e (duplicate-Classed i _ h)
  | inr e ↦ rw e h
]

All-map-of :
    {A B : Type 0} (P : A → Type 0) (Q : B → Type 0) (f : A → B)
    → ((x : A) → P x → Q (f x))
    → (xs : List A) → All P xs
    → All Q (map f xs)
All-map-of P Q f step [] h = tt
All-map-of P Q f step (x ∷ xs) h = (step x h.0, All-map-of P Q f step xs h.1)

module _ (digests : Digests) (beyond : Char → Char) where
  resolutions_classed :
      (records : List CandidateRecord)
      → All (λ r. IsDisposition r.disposition) (resolutions_of digests beyond records)
  unfolding resolutions_of judged_items
  resolutions_classed records =
      All-map-of Classed _ (resolve_item (judged_items digests beyond records))
        (resolve-Classed (judged_items digests beyond records))
        (judged_items digests beyond records)
        (All-map-of Classed Classed (reject_conflict (items_from digests beyond 0 records))
          (reject-Classed (items_from digests beyond 0 records))
          (items_from digests beyond 0 records) (items-Classed digests beyond 0 records))

  -- Each candidate is accounted for: there are as many resolutions as candidates, and the four
  -- dispositions together count each of them once.
  pub account_candidates_total :
      (records : List CandidateRecord)
      → ((account_candidates digests beyond records).summary.total ≡ length records)
        × (sum_of (account_candidates digests beyond records).summary ≡ length records)
  unfolding account_candidates resolutions_of judged_items summarize_dispositions
  account_candidates_total records =
      let all =
        length-sort_stable resolution_before (resolutions_of digests beyond records)
        ∙ length-map _ _
        ∙ length-map _ _
        ∙ length-items_from digests beyond 0 records in
      (
        all,
        counted _ (
              All-sort_stable _ resolution_before (resolutions_of digests beyond records)
                (resolutions_classed records))
            ∙ all,
      )
