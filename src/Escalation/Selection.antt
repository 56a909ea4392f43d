-- ===== src/Escalation/Selection.antt =====
-- Which chain `Resolve` routes to (internal/escalation/router.go).
use fluxseer_rca.Base.{
  some-injective, String, List, [], ◌∷◌, Option, none, some, is_some, Bool, true, false, ◌==◌, ◌≡◌,
  refl, sym, subst, ◌∙◌, ◌⊎◌, inl, inr, arith, All, Bool-cases, IsRanking, descending-IsRanking,
  preferring-IsRanking, ascending_text-IsRanking, first-sort_stable, first, ◌≤ℤ◌, All-map, All-mem,
  if◌then◌else◌,
}
use mathlib.Core.List.{Memᴰ}
use fluxseer_rca.Api.Meta.{
  StringMap, Result, ok, err, Selects, >>=-eq-ok, ok-injective, is_not_found,
}
use fluxseer_rca.Api.Policy.{EscalationChain}
use fluxseer_rca.Escalation.Router.{
  ResolveRequest, Route, Reader, route_for_chain, is_active, precedes, referenced, selector_matches,
  add_matched, collect_matches, listed, read_with, resolve, routed,
}

precedes_ranks : IsRanking precedes
unfolding precedes
precedes_ranks =
    descending-IsRanking (λ c. c.spec.priority) _
      (preferring-IsRanking (λ c. is_some c.spec.resource_selector) _
        (ascending_text-IsRanking (λ c. c.meta.name)))

precedes_priority :
    (a b : EscalationChain) → precedes b a ≡ false → b.spec.priority ≤ℤ a.spec.priority
unfolding precedes
precedes_priority a b h = ground arith

true_ne_false : {A : Type 0} → true ≡ false → A
true_ne_false e = cc

module _ (selects : Selects) (labels : StringMap) where
  -- An active chain of the list whose selector, if it has one, matches the labels.
  pub record IsEligible (chains : List EscalationChain) (c : EscalationChain) : Type 0 where
    pub member : Memᴰ c chains
    pub active : is_active c ≡ true
    pub matched : selector_matches selects c.spec.resource_selector labels ≡ ok true

  IsEligible-tail :
      {p : EscalationChain} {ps : List EscalationChain} {c : EscalationChain}
      → IsEligible ps c
      → IsEligible (p ∷ ps) c
  IsEligible-tail h = record { member = Memᴰ.tail h.member; active = h.active; matched = h.matched }

  -- Every active chain that matches has the property.
  abbrev pub Bounds : (EscalationChain → Type 0) → EscalationChain → Type 0
  Bounds Q p =
      is_active p ≡ true → selector_matches selects p.spec.resource_selector labels ≡ ok true → Q p

  add_matched-eq-ok :
      (p : EscalationChain) (m : Result Bool) (rest : Result (List EscalationChain))
      (chains : List EscalationChain)
      → add_matched selects p m rest ≡ ok chains
      → (b : Bool) × (m ≡ ok b)
        × ((cs : List EscalationChain) × (rest ≡ ok cs) × ((if b then p ∷ cs else cs) ≡ chains))
  add_matched-eq-ok p (err e) rest chains h = cc
  add_matched-eq-ok p (ok b) (err e) chains h = cc
  add_matched-eq-ok p (ok b) (ok cs) chains h = (b, refl, (cs, refl, ok-injective h))

  choose :
      (Q : EscalationChain → Type 0) (p : EscalationChain) (ps cs chains : List EscalationChain)
      (b : Bool)
      → is_active p ≡ true
      → selector_matches selects p.spec.resource_selector labels ≡ ok b
      → (if b then p ∷ cs else cs) ≡ chains
      → All (IsEligible ps) cs
      → (All Q cs → All (Bounds Q) ps)
      → All (IsEligible (p ∷ ps)) chains × (All Q chains → All (Bounds Q) (p ∷ ps))
  choose Q p ps cs chains true a m e h k = (
    subst (All (IsEligible (p ∷ ps))) e (
      record { member = Memᴰ.head refl; active = a; matched = m },
      All-map (λ c. IsEligible-tail) cs h,
    ),
    λ q. let (here, there) = subst (All Q) (sym e) q in ((λ _ _. here), k there),
  )
  choose Q p ps cs chains false a m e h k = (
    subst (All (IsEligible (p ∷ ps))) e (All-map (λ c. IsEligible-tail) cs h),
    λ q. ((λ _ n. true_ne_false (ok-injective (sym n ∙ m))), k (subst (All Q) (sym e) q)),
  )

  -- What is collected is eligible, and covers the active chains that match.
  collected :
      (Q : EscalationChain → Type 0) (policies chains : List EscalationChain)
      → collect_matches selects policies labels ≡ ok chains
      → All (IsEligible policies) chains × (All Q chains → All (Bounds Q) policies)
  unfolding collect_matches
  collected Q [] chains h = (subst (All (IsEligible [])) (ok-injective h) tt, λ q. tt)
  collected Q (p ∷ ps) chains h = elim (Bool-cases (is_active p)) [
    | inr idle ↦
        let (e, k) = collected Q ps chains (rw idle at h) in
        (All-map (λ c. IsEligible-tail) chains e, λ q. ((λ a _. cc), k q))
    | inl active ↦
        let (b, m, (cs, rest, e)) = add_matched-eq-ok p _ _ chains (rw active at h) in
        let (el, k) = collected Q ps cs rest in choose Q p ps cs chains b active m e el k
  ]

module _ (quote : String → String) (selects : Selects) (reader : Reader)
    (request : ResolveRequest) where
  -- The chain that the request names was read and is active.
  pub record ByReference (route : Route) : Type 0 where
    pub chain : EscalationChain
    pub named : (request.escalation_chain_ref == "") ≡ false
    pub read :
        reader.get (record { namespace = request.namespace; name = request.escalation_chain_ref })
        ≡ ok chain
    pub active : is_active chain ≡ true
    pub routed : route ≡ route_for_chain chain

  -- The request names none: an eligible chain of the namespace, of the highest priority.
  pub record BySelection (route : Route) : Type 0 where
    pub chain : EscalationChain
    pub chains : List EscalationChain
    pub unnamed : (request.escalation_chain_ref == "") ≡ true
    pub read : reader.list request.namespace ≡ ok chains
    pub eligible : IsEligible selects request.resource_labels chains chain
    pub highest :
        All
          (Bounds selects request.resource_labels (λ c. c.spec.priority ≤ℤ chain.spec.priority))
          chains
    pub routed : route ≡ route_for_chain chain

  abbrev pub IsRouted : Route → Type 0
  IsRouted route = ByReference route ⊎ BySelection route

  referenced_route :
      (r : Result EscalationChain) (route : Route)
      → referenced request.namespace request.escalation_chain_ref r ≡ ok (some route)
      → (c : EscalationChain) × (r ≡ ok c) × (is_active c ≡ true) × (route ≡ route_for_chain c)
  unfolding referenced
  referenced_route (err e) route h = elim (Bool-cases (is_not_found e)) [
    | inl gone ↦ cc (rw gone at h)
    | inr other ↦ cc (rw other at h)
  ]
  referenced_route (ok c) route h = elim (Bool-cases (is_active c)) [
    | inl active ↦ (c, refl, active, some-injective (ok-injective (sym (rw active at h))))
    | inr idle ↦ cc (rw idle at h)
  ]

  first_route :
      (o : Option EscalationChain) (route : Route)
      → routed o ≡ some route
      → (c : EscalationChain) × (o ≡ some c) × (route ≡ route_for_chain c)
  first_route none route h = cc
  first_route (some c) route h = (c, refl, some-injective (sym h))

  listed_route :
      (r : Result (List EscalationChain)) (route : Route)
      → (request.escalation_chain_ref == "") ≡ true
      → reader.list request.namespace ≡ r
      → listed selects quote request r ≡ ok (some route)
      → BySelection route
  unfolding listed
  listed_route (err e) route n l h = cc
  listed_route (ok chains) route n l h =
      let (matches, found, e) =
        >>=-eq-ok (collect_matches selects chains request.resource_labels) _ h in
      let (c, first, same) = first_route _ route (ok-injective e) in
      let (member, best) = first-sort_stable precedes precedes_ranks matches first in
      let (el, _) =
        collected selects request.resource_labels (λ _. Unit {0}) chains matches found in
      let (_, bounds) =
        collected selects request.resource_labels (λ b. b.spec.priority ≤ℤ c.spec.priority) chains
          matches found in
      record {
        chain = c;
        chains = chains;
        unnamed = n;
        read = l;
        eligible = All-mem (IsEligible selects request.resource_labels chains) matches el member;
        highest = bounds (All-map (λ b. precedes_priority c b) matches best);
        routed = same;
      }

  -- A route that `Resolve` answers has one of two grounds. Either the request names a chain, and
  -- the route is that chain, which was read and is active; or the request names none, and the route
  -- is a chain of the namespace that is active and matches the labels, and no active chain there
  -- that matches them has a higher priority.
  pub resolve-IsRouted :
      (route : Route)
      → resolve selects quote (some reader) request ≡ ok (some route)
      → IsRouted route
  unfolding resolve read_with
  resolve-IsRouted route h = elim (Bool-cases (request.escalation_chain_ref == "")) [
    | inl unnamed ↦
        inr (listed_route (reader.list request.namespace) route unnamed refl (rw unnamed at h))
    | inr named ↦
        let (c, r, active, same) = referenced_route _ route (rw named at h) in
        inl (record { chain = c; named = named; read = r; active = active; routed = same })
  ]
