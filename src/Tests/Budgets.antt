-- ===== src/Tests/Budgets.antt =====
-- The budget of a status on concrete texts and statuses.
use fluxseer_rca.Base.{ℕ, [], ◌∷◌, none, some, Bool, false, ◌≡◌, refl, ◌↔◌}
use fluxseer_rca.StatusBudget.Limits.{
  InvestigationStatus, prefix_within, truncate_utf8, enforce_investigation_status,
}
use fluxseer_rca.StatusBudget.Truncation.{IsLongestPrefix, truncate_utf8-IsLongestPrefix}
use fluxseer_rca.StatusBudget.Enforcement.{IsWithin, enforce_investigation_status-IsWithin}

-- The third byte would cut the second letter.
cut_before : (truncate_utf8 "aéb" 2).text ≡ "a"
unfolding truncate_utf8 prefix_within
cut_before = refl

truncate_utf8-IsLongestPrefix_example :
    IsLongestPrefix 2 "aéb" (truncate_utf8 "aéb" 2).text
    × (((truncate_utf8 "aéb" 2).truncated ≡ false) ↔ ((truncate_utf8 "aéb" 2).text ≡ "aéb"))
truncate_utf8-IsLongestPrefix_example = truncate_utf8-IsLongestPrefix "aéb" 2

abbrev status : InvestigationStatus (Unit {0})
status = record {
  summary = "the pods restart";
  hypothesis = "";
  verdict_summary = none;
  failure_message = none;
  claims =
      (record {
        id = "c-1";
        statement = "the probe fails";
        evidence_refs = [];
        evidence_links = [];
        verification = "";
      })
      ∷ [];
  evidence_refs = [];
  rest = tt;
}

-- The rest alone is over the budget.
abbrev size : InvestigationStatus (Unit {0}) → ℕ
size s = 70000

enforce_investigation_status-IsWithin_example :
    (t : InvestigationStatus (Unit {0})) × (flag : Bool) × (enforce_investigation_status size status
      ≡ some (t, flag))
    × IsWithin size t
    × (flag ≡ false → t ≡ status)
enforce_investigation_status-IsWithin_example = enforce_investigation_status-IsWithin size status
