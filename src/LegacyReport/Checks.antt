-- ===== src/LegacyReport/Checks.antt =====
-- `validate_merged_daily_report` and what it calls (bridge/noc_bridge/report_validation.py). Whether a
-- number that is no integer lies between 0 and 1 is an argument, and so is whether a text is blank.
use text.Mathlib.Text.{◌==◌ as str_eq}
use noc_report.Common.{String, Bool, true, false, not, ◌&&◌, List, [], ◌∷◌, leb, any}
use noc_report.Json.{
  Json, null, bool, num, neg, real, str, arr, obj, Items, nil, cons, Fields, get_or_null, has_key,
}

-- `isinstance(x, int)` and `isinstance(x, (int, float))`; a Boolean is an integer.
abbrev pub is_integer : Json → Bool
is_integer (num n) = true
is_integer (neg n) = true
is_integer (bool b) = true
is_integer _ = false

abbrev is_number : Json → Bool
is_number (real s) = true
is_number j = is_integer j

abbrev pub null_or : (Json → Bool) → Json → Bool
null_or p null = true
null_or p j = p j

abbrev has_all : List String → Fields → Bool
has_all [] d = true
has_all (k ∷ ks) d = has_key k d && has_all ks d

abbrev analysis_texts : List String
analysis_texts =
    "summary_en" ∷ "summary_zh" ∷ "likely_cause_en" ∷ "likely_cause_zh" ∷ "recommended_action_en"
    ∷ "recommended_action_zh" ∷ []

abbrev is_severity : Json → Bool
is_severity (str s) = any (str_eq s) ("low" ∷ "medium" ∷ "high" ∷ "critical" ∷ [])
is_severity _ = false

module _ (is_blank : String → Bool) (is_unit : String → Bool) where
  -- `isinstance(value, str) and value.strip()`.
  abbrev pub is_filled : Json → Bool
  is_filled (str s) = not (is_blank s)
  is_filled _ = false

  abbrev pub all_filled : List String → Fields → Bool
  all_filled [] d = true
  all_filled (k ∷ ks) d = is_filled (get_or_null k d) && all_filled ks d

  -- `0 <= confidence <= 1`.
  abbrev is_confidence : Json → Bool
  is_confidence (num n) = leb n 1
  is_confidence (bool b) = true
  is_confidence (real s) = is_unit s
  is_confidence _ = false

  unfoldable pub valid_find : Json → Bool
  valid_find (obj d) =
      all_filled ("label_en" ∷ "label_zh" ∷ "detail_en" ∷ "detail_zh" ∷ []) d
      && null_or is_integer (get_or_null "count" d)
      && null_or is_number (get_or_null "percentage" d)
  valid_find _ = false

  unfoldable pub valid_finds : Items → Bool
  valid_finds nil = true
  valid_finds (cons j js) = valid_find j && valid_finds js

  -- A list whose entries are valid, and one that has some.
  abbrev pub valid_find_list : Json → Bool
  valid_find_list (arr js) = valid_finds js
  valid_find_list _ = false

  abbrev pub valid_some_finds : Json → Bool
  valid_some_finds (arr (cons j js)) = valid_finds (cons j js)
  valid_some_finds _ = false

  unfoldable pub valid_analysis : Json → Bool
  valid_analysis (obj d) =
      has_all ("key_finds" ∷ "secondary_finds" ∷ "severity_signal" ∷ "confidence" ∷ analysis_texts)
        d
      && all_filled analysis_texts d
      && is_severity (get_or_null "severity_signal" d)
      && is_confidence (get_or_null "confidence" d)
      && valid_some_finds (get_or_null "key_finds" d)
      && valid_find_list (get_or_null "secondary_finds" d)
  valid_analysis _ = false

  unfoldable pub valid_section : Json → Bool
  valid_section (obj d) =
      all_filled ("incident_display_id" ∷ "title" ∷ "status" ∷ []) d
      && null_or valid_analysis (get_or_null "analysis" d)
  valid_section _ = false

  unfoldable pub valid_sections : Items → Bool
  valid_sections nil = true
  valid_sections (cons j js) = valid_section j && valid_sections js

  abbrev pub valid_section_list : Json → Bool
  valid_section_list (arr js) = valid_sections js
  valid_section_list _ = false

  unfoldable pub validate_merged_daily_report : Fields → Bool
  validate_merged_daily_report d =
      has_all ("title" ∷ "overview_en" ∷ "overview_zh" ∷ "sections" ∷ []) d
      && all_filled ("title" ∷ "overview_en" ∷ "overview_zh" ∷ []) d
      && valid_section_list (get_or_null "sections" d)
