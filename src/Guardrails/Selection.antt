-- ===== src/Guardrails/Selection.antt =====
-- Which policy `selectApprovalPolicy` selects.
use fluxseer_rca.Base.{
  ℕ, ◌≤◌, String, List, [], ◌∷◌, Option, none, some, true, false, ◌≡◌, refl, sym, subst, ◌∙◌, inl,
  inr, arith, pos, All, Bool-cases, IsRanking, descending-IsRanking, ascending_text-IsRanking,
  first-sort_stable, first-sort_stable-none, ◌≤ℤ◌, All-map, All-mem,
}
use mathlib.Core.List.{Memᴰ}
use fluxseer_rca.Api.Meta.{Result, ok, err, Selects, >>=-eq-ok, ok-injective}
use fluxseer_rca.Api.Policy.{ApprovalPolicy}
use fluxseer_rca.Guardrails.Policy.{
  PolicyReviewInput, PolicyMatch, qualified_name, precedes, is_active, match_approval_policy,
  collect_matches, select_approval_policy, within, add_match,
}

precedes-IsRanking : IsRanking precedes
unfolding precedes
precedes-IsRanking =
    descending-IsRanking (λ m. pos m.rank) _
      (descending-IsRanking (λ m. m.policy.spec.priority) _
        (ascending_text-IsRanking qualified_name))

same_match :
    (p : ApprovalPolicy) (l : String) (r : ℕ) (level : String) (rank : ℕ)
    → ◌≡◌ {A = Option (String × ℕ)} (some (l, r)) (some (level, rank))
    → ◌≡◌ {A = PolicyMatch}
        (record { policy = p; level = l; rank = r })
        (record { policy = p; level = level; rank = rank })
same_match p l r level rank e = ground arith

-- What "stands before" says of ranks and priorities.
pub precedes-rank :
    (a b : PolicyMatch)
    → precedes b a ≡ false
    → (b.rank ≤ a.rank) × (b.rank ≡ a.rank → b.policy.spec.priority ≤ℤ a.policy.spec.priority)
unfolding precedes
precedes-rank a b h = (ground arith, λ e. ground arith)

module _ (selects : Selects) (input : PolicyReviewInput) where
  -- An active policy of the list that matches the input, at this level and rank.
  pub record Applies (policies : List ApprovalPolicy) (m : PolicyMatch) : Type 0 where
    pub listed : Memᴰ m.policy policies
    pub active : is_active m.policy ≡ true
    pub matched : match_approval_policy selects m.policy input ≡ ok (some (m.level, m.rank))

  Applies-tail :
      {p : ApprovalPolicy} {ps : List ApprovalPolicy} {m : PolicyMatch}
      → Applies ps m
      → Applies (p ∷ ps) m
  Applies-tail a = record { listed = Memᴰ.tail a.listed; active = a.active; matched = a.matched }

  within-eq-ok :
      (p : ApprovalPolicy) (r : Result (Option (String × ℕ))) {o : Option (String × ℕ)}
      → within p r ≡ ok o
      → r ≡ ok o
  within-eq-ok p (ok o') h = cc
  within-eq-ok p (err e) h = cc

  add_match-Applies :
      (p : ApprovalPolicy) (ps : List ApprovalPolicy) (o : Option (String × ℕ))
      (ms : List PolicyMatch)
      → is_active p ≡ true
      → match_approval_policy selects p input ≡ ok o
      → All (Applies ps) ms
      → All (Applies (p ∷ ps)) (add_match p o ms)
  add_match-Applies p ps none ms a e h = All-map (λ m. Applies-tail) ms h
  add_match-Applies p ps (some (level, rank)) ms a e h = (
    record { listed = Memᴰ.head refl; active = a; matched = e },
    All-map (λ m. Applies-tail) ms h,
  )

  -- What is collected applies.
  collect-Applies :
      (policies : List ApprovalPolicy) (matches : List PolicyMatch)
      → collect_matches selects policies input ≡ ok matches
      → All (Applies policies) matches
  unfolding collect_matches
  collect-Applies [] matches h = subst (All (Applies [])) (ok-injective h) tt
  collect-Applies (p ∷ ps) matches h = elim (Bool-cases (is_active p)) [
    | inr idle ↦ All-map (λ m. Applies-tail) matches (collect-Applies ps matches (rw idle at h))
    | inl active ↦
        let (o, matched, h') =
          >>=-eq-ok (within p (match_approval_policy selects p input)) _ (rw active at h) in
        let (ms, rest, e) = >>=-eq-ok (collect_matches selects ps input) _ h' in
        subst (All (Applies (p ∷ ps))) (ok-injective e) (
          add_match-Applies p ps o ms active (within-eq-ok p _ matched)
            (collect-Applies ps ms rest))
  ]

  -- What holds of all matches holds of each active policy that matches.
  abbrev pub Covered : (PolicyMatch → Type 0) → ApprovalPolicy → Type 0
  Covered Q p =
      is_active p ≡ true
      → (level : String) (rank : ℕ)
      → match_approval_policy selects p input ≡ ok (some (level, rank))
      → Q (record { policy = p; level = level; rank = rank })

  add_match-Covered :
      (Q : PolicyMatch → Type 0) (p : ApprovalPolicy) (o : Option (String × ℕ))
      (ms : List PolicyMatch)
      → match_approval_policy selects p input ≡ ok o
      → All Q (add_match p o ms)
      → Covered Q p × All Q ms
  add_match-Covered Q p none ms e h = (λ a level rank k. cc, h)
  add_match-Covered Q p (some (l, r)) ms e h = (
    λ a level rank k.
        subst (λ (m : PolicyMatch). Q m) (same_match p l r level rank (ok-injective (sym e ∙ k)))
          h.0,
    h.1,
  )

  collect-Covered :
      (Q : PolicyMatch → Type 0) (policies : List ApprovalPolicy) (matches : List PolicyMatch)
      → collect_matches selects policies input ≡ ok matches
      → All Q matches
      → All (Covered Q) policies
  unfolding collect_matches
  collect-Covered Q [] matches h q = tt
  collect-Covered Q (p ∷ ps) matches h q = elim (Bool-cases (is_active p)) [
    | inr idle ↦ (λ a level rank k. cc, collect-Covered Q ps matches (rw idle at h) q)
    | inl active ↦
        let (o, matched, h') =
          >>=-eq-ok (within p (match_approval_policy selects p input)) _ (rw active at h) in
        let (ms, rest, e) = >>=-eq-ok (collect_matches selects ps input) _ h' in
        let (here, there) =
          add_match-Covered Q p o ms (within-eq-ok p _ matched)
            (subst (All Q) (sym (ok-injective e)) q) in
        (here, collect-Covered Q ps ms rest there)
  ]

  -- The policy that is selected is an active policy of the list that matches, and no active policy
  -- that matches stands before it: none has a higher rank, none of its rank a higher priority, and
  -- none of its rank and priority an earlier qualified name.
  pub select_approval_policy-best :
      (policies : List ApprovalPolicy) (m : PolicyMatch)
      → select_approval_policy selects policies input ≡ ok (some m)
      → Applies policies m × All (Covered (λ b. precedes b m ≡ false)) policies
  unfolding select_approval_policy
  select_approval_policy-best policies m h =
      let (matches, collected, e) = >>=-eq-ok (collect_matches selects policies input) _ h in
      let (member, best) = first-sort_stable precedes precedes-IsRanking matches (ok-injective e) in
      (
        All-mem (Applies policies) matches (collect-Applies policies matches collected) member,
        collect-Covered (λ b. precedes b m ≡ false) policies matches collected best,
      )

  -- No policy is selected only where no active policy matches.
  pub select_approval_policy-none :
      (policies : List ApprovalPolicy)
      → select_approval_policy selects policies input ≡ ok none
      → All (Covered (λ b. ⊥)) policies
  unfolding select_approval_policy
  select_approval_policy-none policies h =
      let (matches, collected, e) = >>=-eq-ok (collect_matches selects policies input) _ h in
      let empty = first-sort_stable-none precedes precedes-IsRanking matches (ok-injective e) in
      collect-Covered (λ b. ⊥) policies matches collected (subst (All (λ b. ⊥)) (sym empty) tt)

  -- The order, read on ranks and priorities.
  abbrev pub Outranked : PolicyMatch → PolicyMatch → Type 0
  Outranked m b =
      (b.rank ≤ m.rank) × (b.rank ≡ m.rank → b.policy.spec.priority ≤ℤ m.policy.spec.priority)

  -- The policy that is selected is an active policy of the list that matches the input at its
  -- level; every active policy that matches has at most its rank, and at its rank at most its
  -- priority.
  pub select_approval_policy-outranks :
      (policies : List ApprovalPolicy) (m : PolicyMatch)
      → select_approval_policy selects policies input ≡ ok (some m)
      → Applies policies m × All (Covered (Outranked m)) policies
  select_approval_policy-outranks policies m h =
      let (applies, best) = select_approval_policy-best policies m h in
      (applies, All-map (λ p q a l r e. precedes-rank m _ (q a l r e)) policies best)
