-- ===== src/Validation/Finds.antt =====
-- The loop of `validate_log_triage_result` over the findings (bridge/noc_bridge/validation.py).
use text.Mathlib.Text.{◌==◌ as str_eq}
use noc_report.Common.{
  ℕ, String, Bool, true, false, not, ◌&&◌, ◌||◌, Option, none, some, List, [], ◌∷◌, ◌++◌, leb, ◌==◌,
  any, if◌then◌else◌,
}
use noc_report.Json.{
  Json, null, num, neg, real, str, arr, obj, Items, nil, cons, Fields, get_or_null,
}
use noc_report.Document.Reading.{◌>>=◌}
use noc_report.Composition.Plan.{is_in, has_duplicates}
use noc_report.Validation.{Text, is_filled}

-- The ids of patterns and of findings that the loop has met.
pub record Seen : Type 0 where
  pub ids : List String
  pub finding_ids : List String

-- The texts of a list of texts that are not empty.
unfoldable pub texts_of : Items → Option (List String)
texts_of nil = some []
texts_of (cons (str s) js) = do rest ← texts_of js; if str_eq s "" then none else some (s ∷ rest)
texts_of (cons j js) = none

-- The pattern ids of a finding: some texts without repetition.
abbrev pub distinct_texts : List String → Option (List String)
distinct_texts [] = none
distinct_texts (s ∷ ss) = if has_duplicates (s ∷ ss) then none else some (s ∷ ss)

unfoldable pub pattern_ids : Json → Option (List String)
pattern_ids (arr js) = do ss ← texts_of js; distinct_texts ss
pattern_ids _ = none

-- `any(i in seen for i in ids)`.
abbrev pub meets : List String → List String → Bool
meets seen ids = any (λ i. is_in i seen) ids

abbrev is_entry : Json → Bool
is_entry (num n) = true
is_entry _ = false

abbrev same_entry : Json → Json → Bool
same_entry (num n) (num m) = n == m
same_entry _ _ = false

abbrev has_entry : Json → Items → Bool
has_entry j nil = false
has_entry j (cons i js) = same_entry j i || has_entry j js

-- Entry ids are natural numbers without repetition.
unfoldable pub valid_entries : Items → Bool
valid_entries nil = true
valid_entries (cons j js) = is_entry j && not (has_entry j js) && valid_entries js

abbrev pub valid_evidence : Json → Bool
valid_evidence null = true
valid_evidence (arr (cons j js)) = valid_entries (cons j js)
valid_evidence _ = false

-- A count that may be missing, and is at most the bound.
abbrev pub at_most : ℕ → Json → Bool
at_most bound null = true
at_most bound (num n) = leb n bound
at_most bound _ = false

-- A natural number that may be missing.
abbrev pub natural_or_null : Json → Bool
natural_or_null null = true
natural_or_null (num n) = true
natural_or_null _ = false

-- An occurrence count is at most the physical count where that is given.
abbrev pub valid_occurrence : Json → Json → Bool
valid_occurrence (num physical) occurrence = at_most physical occurrence
valid_occurrence _ occurrence = natural_or_null occurrence

-- A physical count that is given is at least the count.
abbrev pub covers_count : Json → ℕ → Bool
covers_count (num physical) count = leb count physical
covers_count _ count = true

abbrev pub is_unquantified : List String → Bool
is_unquantified (s ∷ []) = str_eq s "unquantified"
is_unquantified _ = false

abbrev pub is_null : Json → Bool
is_null null = true
is_null _ = false

abbrev pub is_number : Json → Bool
is_number (num n) = true
is_number (neg n) = true
is_number (real r) = true
is_number _ = false

module _ (t : Text) where
  -- A percentage that agrees with a count and a total.
  unfoldable pub agrees : Json → ℕ → ℕ → Bool
  agrees percentage count total =
      let expected = if total == 0 then num 0 else t.share count total in
      is_number percentage && t.is_percentage percentage && t.is_near percentage expected

  -- The count and the percentage of a finding.
  abbrev pub valid_count : ℕ → Json → Json → Json → Bool
  valid_count total physical (num count) percentage =
      leb count total && covers_count physical count && agrees percentage count total
  valid_count total physical _ percentage = false

  unfoldable pub valid_numbers : ℕ → List String → Fields → Bool
  valid_numbers total patterns d =
      let count = get_or_null "count" d in
      let percentage = get_or_null "percentage" d in
      let physical = get_or_null "physical_entry_count" d in
      at_most total physical
      && valid_occurrence physical (get_or_null "occurrence_count" d)
      && (if is_unquantified patterns
          then is_null count && is_null percentage
          else valid_count total physical count percentage)

  abbrev has_texts : Fields → Bool
  has_texts d =
      is_filled t (get_or_null "label_zh" d)
      && is_filled t (get_or_null "label_en" d)
      && is_filled t (get_or_null "detail_zh" d)
      && is_filled t (get_or_null "detail_en" d)

  -- The id of a finding, a text that is not blank.
  abbrev pub text_id : Json → Option String
  text_id (str s) = if t.is_blank s then none else some s
  text_id _ = none

  -- Whether a finding with these ids is accepted after those that were seen.
  unfoldable pub accepts : ℕ → Seen → String → List String → Fields → Bool
  accepts total seen id patterns d =
      not (is_in id seen.finding_ids)
      && has_texts d
      && not (meets seen.ids patterns)
      && valid_evidence (get_or_null "evidence_entry_ids" d)
      && valid_numbers total patterns d

  -- One finding: what has been seen after it.
  unfoldable pub check_finding : ℕ → Json → Seen → Option Seen
  check_finding total (obj d) seen = do
    id ← text_id (get_or_null "id" d)
    patterns ← pattern_ids (get_or_null "pattern_ids" d)
    let next : Seen = record { ids = patterns ++ seen.ids; finding_ids = id ∷ seen.finding_ids }
    if accepts total seen id patterns d then some next else none
  check_finding total _ seen = none

  unfoldable pub check_findings : ℕ → Items → Seen → Option Seen
  check_findings total nil seen = some seen
  check_findings total (cons j js) seen = do
    seen' ← check_finding total j seen
    check_findings total js seen'

  -- One of the two groups, which has to be a list.
  abbrev pub check_group : ℕ → Json → Seen → Option Seen
  check_group total (arr js) seen = check_findings total js seen
  check_group total _ seen = none

  -- Both groups, with one record of what was seen.
  unfoldable pub check_groups : ℕ → Fields → Option Seen
  check_groups total d = do
    seen ← check_group total (get_or_null "key_finds" d) (record { ids = []; finding_ids = [] })
    check_group total (get_or_null "secondary_finds" d) seen
