-- ===== src/Validation/Consistent.antt =====
-- The numbers and the ids of a log analysis that the checks accept.
use noc_report.Common.{
  ◌≡◌, inl, inr, refl, sym, ap, ◌∙◌, arith, ℕ, true, false, some, is_none, List, [], All,
  Option-cases,
}
use noc_report.Json.{Json, num, arr, Fields, get_or_null}
use noc_report.Document.Reading.{list_of}
use noc_report.Composition.{dicts_of}
use noc_report.Composition.Plan.{has_duplicates}
use noc_report.Composition.Run.{>>=-some}
use noc_report.Validation.{Text}
use noc_report.Validation.Finds.{Seen, check_group, check_groups}
use noc_report.Validation.Language.{findings_of, checked_total, validate_log_triage_result}
use noc_report.Validation.Accepted.{
  names_onto, patterns_onto, IsCounted, Distinct, Steps, check_findings-Steps,
}

abbrev dicts_in : Json → List Fields
dicts_in v = elim v [ arr js ↦ dicts_of (list_of js) | _ ↦ [] ]

check_group-Steps :
    (t : Text) (total : ℕ) (v : Json) (seen seen' : Seen)
    → Distinct t total seen
    → check_group t total v seen ≡ some seen'
    → Steps t total (dicts_in v) seen seen'
check_group-Steps t total (arr js) seen seen' g h = check_findings-Steps t total js seen seen' g h
check_group-Steps t total _ seen seen' g h = absurd (ground (arith, h))

-- The ids of the findings of both groups are distinct, and so are all their pattern ids, and each
-- finding counts within the total.
abbrev pub IsConsistent : Text → ℕ → Fields → Type 0
IsConsistent t total d =
    (has_duplicates
        (names_onto (findings_of "secondary_finds" d) (names_onto (findings_of "key_finds" d) []))
      ≡ false)
    × (has_duplicates (
          patterns_onto (findings_of "secondary_finds" d)
            (patterns_onto (findings_of "key_finds" d) []))
        ≡ false)
    × All (IsCounted t total) (findings_of "key_finds" d)
    × All (IsCounted t total) (findings_of "secondary_finds" d)

check_groups-IsConsistent :
    (t : Text) (total : ℕ) (d : Fields) (seen : Seen)
    → check_groups t total d ≡ some seen
    → IsConsistent t total d
unfolding check_groups has_duplicates
check_groups-IsConsistent t total d seen h =
    let start : Seen = record { ids = []; finding_ids = [] } in
    let (first, e, h1) =
      >>=-some (check_group t total (get_or_null "key_finds" d) start) _ seen h in
    let a = check_group-Steps t total (get_or_null "key_finds" d) start first (refl, refl) e in
    let b = check_group-Steps t total (get_or_null "secondary_finds" d) first seen a.2 h1 in
    let names = sym (b.0 ∙ ap (names_onto (findings_of "secondary_finds" d)) a.0) in
    let patterns = sym (b.1 ∙ ap (patterns_onto (findings_of "secondary_finds" d)) a.1) in
    (ap has_duplicates names ∙ b.2.0, ap has_duplicates patterns ∙ b.2.1, a.3, b.3)

checked_total-IsConsistent :
    (t : Text) (v : Json) (d : Fields)
    → checked_total t v d ≡ true
    → (total : ℕ) × (v ≡ num total) × IsConsistent t total d
checked_total-IsConsistent t (num total) d h = elim (Option-cases (check_groups t total d)) [
  | inl e ↦
      let broken : is_none (check_groups t total d) ≡ false = ground (arith, h) in
      absurd (ground (arith, e, broken))
  | inr (seen, e) ↦ (total, refl, check_groups-IsConsistent t total d seen e)
]
checked_total-IsConsistent t _ d h = absurd (ground (arith, h))

-- A log analysis that is accepted gives its total as a natural number; the ids of its findings are
-- distinct over both groups, and so are all their pattern ids; and each finding is marked as
-- unquantified and claims no count and no percentage, or it claims a count of at most the total and a
-- percentage that agrees with both.
pub validate_log_triage_result-IsConsistent :
    (t : Text) (d : Fields)
    → validate_log_triage_result t d ≡ true
    → (total : ℕ) × (get_or_null "total_entries" d ≡ num total) × IsConsistent t total d
unfolding validate_log_triage_result
validate_log_triage_result-IsConsistent t d h =
    checked_total-IsConsistent t (get_or_null "total_entries" d) d h
