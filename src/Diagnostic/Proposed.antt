-- ===== src/Diagnostic/Proposed.antt =====
-- Which candidates are proposed: one for each claim, and only on evidence that carries it.
use fluxseer_rca.Base.{
  ℕ, ◌≤◌, members-All, String, List, [], ◌∷◌, Option, none, some, Bool, true, false, not, ◌&&◌,
  ◌||◌, ◌==◌, ◌≡◌, refl, sym, ap, ◌∙◌, subst, ◌⊎◌, inl, inr, Bool-cases, Option-cases,
  some-injective, Char, eqb, arith, All, keep, first, length, All-sort_stable, length-sort_stable,
  str_eq→eq, eq→str_eq, if◌then◌else◌,
}
use mathlib.Core.List.{Memᴰ}
use fluxseer_rca.Diagnostic.Types.{CandidateRecord, EvidenceIdentity}
use fluxseer_rca.Diagnostic.Candidates.{
  Digests, validate_candidate, validate_refs, candidate_problem, check_refs, ref_problem,
  evidence_problem, identity_of, is_incomplete, is_conflicting, proposed_claim, deduplicated,
  incident_window_compatible,
}
use fluxseer_rca.Diagnostic.Accounting.{
  AccountingItem, item_before, canonical_of, resolve_duplicate, resolve_item,
}

kept_pass :
    {A : Type 0} (p : A → Bool) (Q : A → Type 0) (xs : List A)
    → All Q xs
    → All (λ x. (p x ≡ true) × Q x) (keep p xs)
kept_pass p Q [] h = tt
kept_pass p Q (x ∷ xs) h = elim (Bool-cases (p x)) [
  | inl e ↦ rw e ((e, h.0), kept_pass p Q xs h.1)
  | inr e ↦ rw e (kept_pass p Q xs h.1)
]

kept_some :
    {A : Type 0} (p : A → Bool) (x : A) (xs : List A)
    → Memᴰ x xs
    → p x ≡ true
    → 1 ≤ length (keep p xs)
kept_some p x [] m h = elim m [ ]
kept_some p x (y ∷ ys) (Memᴰ.head e) h = rw (sym (ap p e) ∙ h) omega arith
kept_some p x (y ∷ ys) (Memᴰ.tail m) h = elim (Bool-cases (p y)) [
  | inl e ↦ rw e omega arith
  | inr e ↦ rw e (kept_some p x ys m h)
]

first_of : {A : Type 0} (Q : A → Type 0) (xs : List A) (c : A) → first xs ≡ some c → All Q xs → Q c
first_of Q [] c e h = cc
first_of Q (x ∷ xs) c e h = subst Q (some-injective e) h.0

first_nothing : {A : Type 0} (xs : List A) → first xs ≡ none → length xs ≡ 0
first_nothing [] e = refl
first_nothing (x ∷ xs) e = cc

abbrev makes : String → AccountingItem → Bool
makes claim i = i.eligible && i.resolution.claim_fingerprint == claim

and_true : (a b : Bool) → (a && b) ≡ true → (a ≡ true) × (b ≡ true)
and_true true b h = (refl, h)
and_true false b h = cc

eqb_self : (n : ℕ) → eqb n n ≡ true
eqb_self n = ground arith

-- The one candidate that is proposed for the claim that `i` makes.
pub record IsProposedFor (items : List AccountingItem) (i : AccountingItem) : Type 0 where
  pub canonical : AccountingItem
  pub member : Memᴰ canonical items
  pub eligible : canonical.eligible ≡ true
  pub claim : canonical.resolution.claim_fingerprint ≡ i.resolution.claim_fingerprint
  pub proposed : (resolve_item items canonical).disposition ≡ proposed_claim
  pub others :
      (j : AccountingItem)
      → j.eligible ≡ true
      → j.resolution.claim_fingerprint ≡ i.resolution.claim_fingerprint
      → ((resolve_item items j).disposition ≡ proposed_claim × (j.index ≡ canonical.index))
        ⊎ (((resolve_item items j).disposition ≡ deduplicated)
            × ((resolve_item items j).duplicate_of ≡ canonical.resolution.candidate_id))

module _ (items : List AccountingItem) where
  canonical_facts :
      (claim : String) (c : AccountingItem)
      → canonical_of items claim ≡ some c
      → (makes claim c ≡ true) × Memᴰ c items
  unfolding canonical_of
  canonical_facts claim c e =
      first_of (λ x. (makes claim x ≡ true) × Memᴰ x items) _ c e
        (All-sort_stable _ item_before (keep (makes claim) items)
          (kept_pass (makes claim) (λ x. Memᴰ x items) items (members-All items)))

  canonical_exists :
      (i : AccountingItem)
      → Memᴰ i items
      → i.eligible ≡ true
      → ¬ (canonical_of items i.resolution.claim_fingerprint ≡ none)
  unfolding canonical_of
  canonical_exists i m h e =
      let claim = i.resolution.claim_fingerprint in
      omega (
        arith,
        first_nothing _ e,
        length-sort_stable item_before (keep (makes claim) items),
        kept_some (makes claim) i items m (rw (h, eq→str_eq claim claim refl) refl),
      )

  resolved_by :
      (j c : AccountingItem)
      → j.eligible ≡ true
      → canonical_of items j.resolution.claim_fingerprint ≡ some c
      → ((resolve_item items j).disposition ≡ proposed_claim × (j.index ≡ c.index))
        ⊎ (((resolve_item items j).disposition ≡ deduplicated)
            × ((resolve_item items j).duplicate_of ≡ c.resolution.candidate_id))
  unfolding resolve_item resolve_duplicate
  resolved_by j c h e = elim (Bool-cases (eqb c.index j.index)) [
    | inl q ↦ inl (rw (h, e, q) (refl, ground arith))
    | inr q ↦ inr (rw (h, e, q) (refl, refl))
  ]

  itself_proposed :
      (c : AccountingItem)
      → c.eligible ≡ true
      → canonical_of items c.resolution.claim_fingerprint ≡ some c
      → (resolve_item items c).disposition ≡ proposed_claim
  unfolding resolve_item resolve_duplicate
  itself_proposed c h e = rw (h, e, eqb_self c.index) refl

  -- For each candidate that may be proposed, exactly one candidate that may be is proposed among
  -- those that make the same claim (up to its place in the input), and every other one is resolved
  -- as a duplicate of it.
  pub resolve_item-IsProposedFor :
      (i : AccountingItem) → Memᴰ i items → i.eligible ≡ true → IsProposedFor items i
  resolve_item-IsProposedFor i m h =
      elim (Option-cases (canonical_of items i.resolution.claim_fingerprint)) [
        | inl e ↦ absurd (canonical_exists i m h e)
        | inr (c, e) ↦
            let (made, member) = canonical_facts i.resolution.claim_fingerprint c e in
            let (may, same) = and_true _ _ made in
            let claim = str_eq→eq _ _ same in
            record {
              canonical = c;
              member = member;
              eligible = may;
              claim = claim;
              proposed = itself_proposed c may (ap (canonical_of items) claim ∙ e);
              others = λ j g q. resolved_by j c g (ap (canonical_of items) q ∙ e);
            }
      ]

-- Evidence that carries a candidate: found, without a contradicting copy, authorized, valid,
-- complete, of the candidate's target and in its window.
pub record IsSupport (digests : Digests) (beyond : Char → Char) (r : CandidateRecord) (ref : String)
    : Type 0 where
  pub identity : EvidenceIdentity
  pub found : identity_of ref r.evidence ≡ some identity
  pub unambiguous : is_conflicting digests beyond ref r.evidence ≡ false
  pub authorized : identity.authorized ≡ true
  pub valid : identity.valid ≡ true
  pub complete : identity.incomplete ≡ false
  pub target : identity.target_uid ≡ r.candidate.target_uid
  pub window :
      incident_window_compatible r.incident_start r.incident_end identity.incident_start
        identity.incident_end
      ≡ true

if_none :
    {A : Type 0} (c : Bool) (why : A) (o : Option A)
    → (if c then some why else o) ≡ none
    → (c ≡ false) × (o ≡ none)
if_none true why o h = cc
if_none false why o h = (refl, h)

not-false : (b : Bool) → not b ≡ false → b ≡ true
not-false true h = refl
not-false false h = cc

module _ (digests : Digests) (beyond : Char → Char) (r : CandidateRecord) where
  support :
      (ref : String) (o : Option EvidenceIdentity)
      → identity_of ref r.evidence ≡ o
      → ref_problem digests beyond r ref o ≡ none
      → is_incomplete o ≡ false
      → IsSupport digests beyond r ref
  unfolding ref_problem evidence_problem
  support ref none e h c = cc
  support ref (some v) e h c =
      let (p, h1) = if_none _ _ _ h in
      let (q, h2) = if_none _ _ _ h1 in
      let (s, h3) = if_none _ _ _ h2 in
      let (t, h4) = if_none _ _ _ h3 in
      let (u, h5) = if_none _ _ _ h4 in
      let (w, h6) = if_none _ _ _ h5 in
      record {
        identity = v;
        found = e;
        unambiguous = p;
        authorized = not-false _ q;
        valid = not-false _ s;
        complete = c;
        target = str_eq→eq _ _ (not-false _ u);
        window = not-false _ w;
      }

  or_false : (a b : Bool) → (a || b) ≡ false → (a ≡ false) × (b ≡ false)
  or_false true b h = cc
  or_false false b h = (refl, h)

  check_refs-IsSupport :
      (refs : List String) (incomplete : Bool)
      → (check_refs digests beyond r refs incomplete).2 ≡ true
      → (incomplete ≡ false) × All (IsSupport digests beyond r) refs
  unfolding check_refs
  check_refs-IsSupport [] true h = cc
  check_refs-IsSupport [] false h = (refl, tt)
  check_refs-IsSupport (ref ∷ refs) incomplete h =
      elim (Option-cases (ref_problem digests beyond r ref (identity_of ref r.evidence))) [
        | inr (why, e) ↦ cc (rw (check_refs, e) at h)
        | inl e ↦
            let (none_yet, rest) = check_refs-IsSupport refs _ (rw (check_refs, e) at h) in
            let (so_far, whole) = or_false _ _ none_yet in
            (so_far, (support ref _ refl e whole, rest))
      ]

  refs-IsSupport :
      (refs : List String)
      → (validate_refs digests beyond r refs).2 ≡ true
      → All (IsSupport digests beyond r) refs × (1 ≤ length refs)
  unfolding validate_refs
  refs-IsSupport [] h = cc
  refs-IsSupport (ref ∷ refs) h = ((check_refs-IsSupport (ref ∷ refs) false h).1, omega arith)

  -- A candidate may be proposed only if it refers to evidence, and each of its references leads to
  -- evidence that carries it: authorized, valid and complete, of the candidate's own target and
  -- within its incident window, and not contradicted by another copy.
  pub validate_candidate-IsSupport :
      (validate_candidate digests beyond r).2 ≡ true
      → All (IsSupport digests beyond r) r.candidate.evidence_refs
        × (1 ≤ length r.candidate.evidence_refs)
  unfolding validate_candidate
  validate_candidate-IsSupport h = elim (Option-cases (candidate_problem r)) [
    | inr (why, e) ↦ cc (rw (validate_candidate, e) at h)
    | inl e ↦ refs-IsSupport r.candidate.evidence_refs (rw (validate_candidate, e) at h)
  ]
