-- ===== src/StatusBudget/Limits.antt =====
-- Truncation of texts, of references to evidence and of the status of an investigation
-- (internal/statusbudget/limits.go).
use Prim.Native.Char.{len_utf8}
use Prim.Native.String.{len}
use fluxseer_rca.Base.{
  ℕ, suc, zero, ◌+◌, ◌-◌, String, List, [], ◌∷◌, Option, none, some, Bool, true, false, ◌||◌, ℤ,
  pos, eqb_ℤ, ltb, leb, eqb, if◌then◌else◌, int32, length, take, map, any,
}
use fluxseer_rca.Api.Evidence.{EvidenceRef}
use fluxseer_rca.Api.Investigation.{RcaClaim}

abbrev pub max_evidence_refs : ℕ
max_evidence_refs = 32

abbrev pub max_claims : ℕ
max_claims = 16

abbrev pub max_evidence_summary_bytes : ℕ
max_evidence_summary_bytes = 1024

abbrev pub max_claim_statement_bytes : ℕ
max_claim_statement_bytes = 1024

abbrev pub max_summary_bytes : ℕ
max_summary_bytes = 2048

abbrev pub max_status_bytes : ℕ
max_status_bytes = 65536

-- The loop over the characters: those that fit, up to the first that does not.
unfoldable pub prefix_within : ℕ → String → String
prefix_within n String.[] = String.[]
prefix_within n (String.◌∷◌ c s) =
    let rest = prefix_within (n - len_utf8 c) s in
    if leb (len_utf8 c) n then String.◌∷◌ c rest else String.[]

pub record Truncation : Type 0 where
  pub text : String
  pub original_bytes : ℤ
  pub retained_bytes : ℤ
  pub truncated : Bool

-- `TruncateUTF8`, of a limit that is not negative.
unfoldable pub truncate_utf8 : String → ℕ → Truncation
truncate_utf8 value max_bytes =
    let original = len value in
    if eqb max_bytes 0
    then record {
      text = "";
      original_bytes = int32 (pos original);
      retained_bytes = pos 0;
      truncated = ltb 0 original;
    }
    else if leb original max_bytes
    then record {
      text = value;
      original_bytes = int32 (pos original);
      retained_bytes = int32 (pos original);
      truncated = false;
    }
    else let kept = prefix_within max_bytes value in
      record {
        text = kept;
        original_bytes = int32 (pos original);
        retained_bytes = int32 (pos (len kept));
        truncated = true;
      }

-- `CompactEvidenceRef`.
unfoldable pub compact_evidence_ref : EvidenceRef → EvidenceRef × Bool
compact_evidence_ref ref =
    let t = truncate_utf8 ref.summary max_evidence_summary_bytes in
    (
      record ref {
        summary = t.text;
        original_bytes =
            if eqb_ℤ ref.original_bytes (pos 0) then t.original_bytes else ref.original_bytes;
        retained_bytes =
            if t.truncated || eqb_ℤ ref.retained_bytes (pos 0)
            then t.retained_bytes
            else ref.retained_bytes;
        truncated = ref.truncated || t.truncated;
      },
      t.truncated,
    )

-- `CompactEvidenceRefs`: of the first references, the compact form.
unfoldable pub compact_evidence_refs : List EvidenceRef → List EvidenceRef × Bool
compact_evidence_refs refs =
    let kept = map compact_evidence_ref (take max_evidence_refs refs) in
    (map (λ r. r.0) kept, ltb max_evidence_refs (length refs) || any (λ r. r.1) kept)

-- The fields of an investigation's status that the budget touches; `R` is the others'.
pub record InvestigationStatus (R : Type 0) : Type 0 where
  pub summary : String
  pub hypothesis : String
  pub verdict_summary : Option String
  pub failure_message : Option String
  pub claims : List RcaClaim
  pub evidence_refs : List EvidenceRef
  pub rest : R

-- `truncateStatusString`, on the text alone.
abbrev pub cut : ℕ → String → String
cut n s = (truncate_utf8 s n).text

abbrev pub is_cut : ℕ → String → Bool
is_cut n s = (truncate_utf8 s n).truncated

abbrev pub cut_some : ℕ → Option String → Option String
cut_some n none = none
cut_some n (some s) = some (cut n s)

abbrev pub is_some_cut : ℕ → Option String → Bool
is_some_cut n none = false
is_some_cut n (some s) = is_cut n s

abbrev pub cut_claim : RcaClaim → RcaClaim
cut_claim c = record c { statement = cut max_claim_statement_bytes c.statement }

abbrev pub is_claim_cut : RcaClaim → Bool
is_claim_cut c = is_cut max_claim_statement_bytes c.statement

abbrev pub drop_last : {A : Type 0} → List A → List A
drop_last [] = []
drop_last (x ∷ []) = []
drop_last (x ∷ y ∷ rest) = x ∷ drop_last (y ∷ rest)

-- The references are written only where one was dropped or cut.
abbrev pub refs_after : List EvidenceRef → List EvidenceRef × Bool → List EvidenceRef
refs_after refs (compacted, true) = compacted
refs_after refs (compacted, false) = refs

module _ {R : Type 0} where
  -- The part before the loop: each text and each list within its own limit.
  unfoldable pub cut_fields : InvestigationStatus R → InvestigationStatus R
  cut_fields status = record status {
    summary = cut max_summary_bytes status.summary;
    hypothesis = cut max_summary_bytes status.hypothesis;
    verdict_summary = cut_some max_summary_bytes status.verdict_summary;
    failure_message = cut_some max_summary_bytes status.failure_message;
    claims = take max_claims (map cut_claim status.claims);
    evidence_refs = refs_after status.evidence_refs (compact_evidence_refs status.evidence_refs);
  }

  unfoldable pub is_any_cut : InvestigationStatus R → Bool
  is_any_cut status =
      is_cut max_summary_bytes status.summary
      || (is_cut max_summary_bytes status.hypothesis
          || (is_some_cut max_summary_bytes status.verdict_summary
              || (is_some_cut max_summary_bytes status.failure_message
                  || (any is_claim_cut status.claims
                      || (ltb max_claims (length status.claims)
                          || (compact_evidence_refs status.evidence_refs).1)))))

  -- One turn of the loop: the last reference goes, and once there is none, the last claim.
  abbrev pub shed :
      InvestigationStatus R → List EvidenceRef → List RcaClaim → Option (InvestigationStatus R)
  shed status [] [] = none
  shed status [] (c ∷ cs) = some (record status { claims = drop_last (c ∷ cs) })
  shed status (r ∷ rs) cs = some (record status { evidence_refs = drop_last (r ∷ rs) })

  -- The loop, on fuel: none means that the fuel ran out. `size` is the length of the JSON text.
  unfoldable pub trim :
      (InvestigationStatus R → ℕ)
      → ℕ
      → InvestigationStatus R
      → Bool
      → Option (InvestigationStatus R × Bool)
  trim size zero status truncated = none
  trim size (suc fuel) status truncated = elim (ltb max_status_bytes (size status)) [
    | false ↦ some (status, truncated)
    | true ↦ elim (shed status status.evidence_refs status.claims) [
      | none ↦ some (status, true)
      | some smaller ↦ trim size fuel smaller true
    ]
  ]

  -- `EnforceInvestigationStatus`: the status, and whether something was cut.
  unfoldable pub enforce_investigation_status :
      (InvestigationStatus R → ℕ) → InvestigationStatus R → Option (InvestigationStatus R × Bool)
  unfolding trim cut_fields is_any_cut
  enforce_investigation_status size status =
      let s = cut_fields status in
      trim size (suc (length s.evidence_refs + length s.claims)) s (is_any_cut status)
