-- ===== src/Diagnostic/Accounting.antt =====
-- `AccountCandidates`: what becomes of each candidate (internal/diagnostic/accounting.go).
use fluxseer_rca.Base.{
  ℕ, suc, String, List, [], ◌∷◌, Option, none, some, Bool, false, ◌&&◌, ◌==◌, ◌!=◌, Char, eqb, ltb,
  str_lt, if◌then◌else◌, any, keep, map, first, count, length, sort_stable,
}
use fluxseer_rca.Diagnostic.Types.{
  CandidateRecord, CandidateResolution, DispositionSummary, AccountingResult,
}
use fluxseer_rca.Diagnostic.Candidates.{
  Digests, normalize_candidate_record, fingerprint_candidate, fingerprint_claim, validate_candidate,
  proposed_claim, retained_hypothesis, rejected_candidate, deduplicated,
}

-- A candidate at its place in the input, as far as it was judged.
pub record AccountingItem : Type 0 where
  pub index : ℕ
  pub resolution : CandidateResolution
  pub eligible : Bool

-- `if text(a) != text(b) { return text(a) < text(b) }`, and then the rest of the comparison.
abbrev pub ascending_then : {A : Type 0} → (A → String) → (A → A → Bool) → A → A → Bool
ascending_then text rest a b = if text a == text b then rest a b else str_lt (text a) (text b)

abbrev pub item_before : AccountingItem → AccountingItem → Bool
item_before =
    ascending_then (λ i. i.resolution.candidate_fingerprint)
      (λ a b. str_lt a.resolution.candidate_id b.resolution.candidate_id)

abbrev pub resolution_before : CandidateResolution → CandidateResolution → Bool
resolution_before =
    ascending_then (λ r. r.candidate_fingerprint)
      (ascending_then (λ r. r.candidate_id) (λ a b. str_lt a.disposition b.disposition))

-- Another candidate has this one's identity, and another content.
unfoldable pub has_conflict : List AccountingItem → AccountingItem → Bool
has_conflict items item =
    item.resolution.candidate_id != ""
    && any
        (λ other.
          other.resolution.candidate_id == item.resolution.candidate_id
          && other.resolution.candidate_fingerprint != item.resolution.candidate_fingerprint)
        items

unfoldable pub reject_conflict : List AccountingItem → AccountingItem → AccountingItem
reject_conflict items item =
    if has_conflict items item
    then record item {
      resolution = record item.resolution {
        disposition = rejected_candidate;
        reason = "CandidateIdentityConflict";
      };
      eligible = false;
    }
    else item

-- The candidates that make the same claim and may be proposed, the first of them for all.
unfoldable pub canonical_of : List AccountingItem → String → Option AccountingItem
canonical_of items claim = first (
    sort_stable item_before
      (keep (λ i. i.eligible && i.resolution.claim_fingerprint == claim) items))

unfoldable pub resolve_duplicate : AccountingItem → Option AccountingItem → CandidateResolution
resolve_duplicate item none = item.resolution
resolve_duplicate item (some canonical) =
    if eqb canonical.index item.index
    then record item.resolution {
      disposition = proposed_claim;
      canonical_claim_id = canonical.resolution.candidate_id;
      reason = "CandidateAcceptedForVerification";
    }
    else record item.resolution {
      disposition = deduplicated;
      canonical_claim_id = canonical.resolution.candidate_id;
      duplicate_of = canonical.resolution.candidate_id;
      reason = "DuplicateClaimFingerprint";
    }

unfoldable pub resolve_item : List AccountingItem → AccountingItem → CandidateResolution
unfolding resolve_duplicate
resolve_item items item =
    if item.eligible
    then resolve_duplicate item (canonical_of items item.resolution.claim_fingerprint)
    else item.resolution

abbrev pub has_disposition : String → CandidateResolution → Bool
has_disposition d r = r.disposition == d

-- `summarizeDispositions`.
unfoldable pub summarize_dispositions : List CandidateResolution → DispositionSummary
summarize_dispositions resolutions =
    let known = ltb 0 (length resolutions) in
    record {
      total = length resolutions;
      proposed_claim_count = count (has_disposition proposed_claim) resolutions;
      retained_hypothesis_count = count (has_disposition retained_hypothesis) resolutions;
      rejected_candidate_count = count (has_disposition rejected_candidate) resolutions;
      deduplicated_count = count (has_disposition deduplicated) resolutions;
      disposition_coverage = if known then 1 else 0;
      coverage_known = known;
    }

module _ (digests : Digests) (beyond : Char → Char) where
  unfoldable pub item_of : ℕ → CandidateRecord → AccountingItem
  item_of index raw =
      let r = normalize_candidate_record raw in
      let (disposition, reason, eligible) = validate_candidate digests beyond r in
      record {
        index = index;
        resolution = record {
          candidate_id = r.candidate.id;
          candidate_fingerprint = fingerprint_candidate digests beyond r;
          claim_fingerprint = fingerprint_claim digests beyond r;
          disposition = disposition;
          canonical_claim_id = "";
          duplicate_of = "";
          reason = reason;
        };
        eligible = eligible;
      }

  unfoldable pub items_from : ℕ → List CandidateRecord → List AccountingItem
  items_from n [] = []
  items_from n (r ∷ rs) = item_of n r ∷ items_from (suc n) rs

  -- The items once those in conflict are rejected.
  unfoldable pub judged_items : List CandidateRecord → List AccountingItem
  judged_items records = let items = items_from 0 records in map (reject_conflict items) items

  -- The resolutions, in the order of the candidates.
  unfoldable pub resolutions_of : List CandidateRecord → List CandidateResolution
  resolutions_of records = let items = judged_items records in map (resolve_item items) items

  -- `AccountCandidates`.
  unfoldable pub account_candidates : List CandidateRecord → AccountingResult
  account_candidates records =
      let resolutions = sort_stable resolution_before (resolutions_of records) in
      record { resolutions = resolutions; summary = summarize_dispositions resolutions }
