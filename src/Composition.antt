-- ===== src/Composition.antt =====
-- The composition of a report from a plan and a frozen snapshot
-- (bridge/noc_bridge/report_composition.py). Python's conversions, the hash and the time zones are
-- a record of functions; a call that raises is none.
pub mod Presentation
pub mod Select
pub mod Layout
pub mod Compose
pub mod Run
pub mod Narrative
pub mod Authority
pub mod Origin
pub mod Frozen
pub mod Targets
pub mod Shape
pub mod Coverage
pub mod Prose
pub mod Blocks
pub mod Plan
use Prim.Native.String.{◌++◌ as str_append}
use text.Mathlib.Text.{◌==◌ as str_eq}
use noc_report.Common.{
  ℕ, zero, suc, String, Bool, true, false, not, ◌&&◌, Option, none, some, List, [], ◌∷◌,
  if◌then◌else◌,
}
use noc_report.Json.{
  Json, null, num, str, arr, obj, Items, nil, cons, Fields, end, field, get, get_or_null, or_else,
  is_truthy,
}
use noc_report.Document.{Metadata, BilingualText, LogFileReference, Screenshot}
use noc_report.Document.Reading.{◌>>=◌, each_of, get_or, elements, screenshot_from_dict}

-- What the composition calls of Python: `str(x)`, `int(x)`, `f"{x:,}"`, the first 24 characters of
-- the SHA-256 of a text, whether `s.strip()` is empty, `s.strip()`, what stands before a final "Z", whether
-- `ZoneInfo` knows a name, `datetime.fromisoformat` with UTC for a time without zone, the day of a
-- time in a zone by `strftime`, and how deep calls may nest.
pub record Library : Type 0 where
  pub to_str : Json → String
  pub to_int : Json → Option Json
  pub with_commas : Json → Option String
  pub digest : String → String
  pub is_blank : String → Bool
  pub strip : String → String
  pub before_z : String → Option String
  pub is_zone : String → Bool
  pub from_iso : String → Option ℕ
  pub day_in_zone : String → ℕ → String
  pub limit : ℕ

-- `isinstance(x, dict)`, with the dict.
abbrev pub as_dict : Json → Option Fields
as_dict (obj d) = some d
as_dict _ = none

-- `x in (None, "")`.
abbrev pub is_missing : Json → Bool
is_missing null = true
is_missing (str s) = str_eq s ""
is_missing _ = false

-- `[x for x in xs if isinstance(x, dict)]`.
abbrev pub dicts_of : List Json → List Fields
dicts_of [] = []
dicts_of (obj d ∷ js) = d ∷ dicts_of js
dicts_of (j ∷ js) = dicts_of js

-- `xs[:5]`.
abbrev pub take : {A : Type 0} → ℕ → List A → List A
take zero xs = []
take (suc n) [] = []
take (suc n) (x ∷ xs) = x ∷ take n xs

-- `xs[:5]`, which a dict and a number refuse.
abbrev pub first_five : Json → Option (List Json)
first_five (obj d) = none
first_five j = do xs ← elements j; some (take 5 xs)

module _ (lib : Library) where
  abbrev pub as_text : Json → Json
  as_text j = str (lib.to_str j)

  -- `str(d.get(k) or "")`, and with a second key in between.
  abbrev pub text_of : String → Fields → String
  text_of k d = lib.to_str (or_else (get_or_null k d) (str ""))

  abbrev pub text_of_either : String → String → Fields → String
  text_of_either k j d = lib.to_str (or_else (get_or_null k d) (or_else (get_or_null j d) (str "")))

  -- `tuple(Metadata(label, str(value)) for label, value in … if value not in (None, ""))`.
  unfoldable pub facts : List (String × Json) → List Metadata
  facts [] = []
  facts ((label, value) ∷ es) =
      let rest = facts es in
      if is_missing value then rest else record { label = str label; value = as_text value } ∷ rest

  abbrev legacy_pair : String → String → Json
  legacy_pair zh en = obj (field "zh" (str zh) (field "en" (str en) end))

  abbrev legacy_findings : List Fields → Items
  legacy_findings [] = nil
  legacy_findings (d ∷ ds) =
      cons
        (obj (
          field "zh" (str (text_of_either "label_zh" "label_en" d)) (
            field "en" (str (text_of_either "label_en" "label_zh" d)) (
              field "detail_zh" (str (text_of "detail_zh" d))
                (field "detail_en" (str (text_of "detail_en" d)) end)))))
        (legacy_findings ds)

  unfoldable pub legacy_fragment : Json → Option Json
  legacy_fragment (obj d) = do
    finds ← first_five (or_else (get_or_null "key_finds" d) (arr nil))
    some (
        obj (
          field "contract" (str "report-fragment-v1") (
            field "headline" (str (text_of_either "summary_en" "summary_zh" d)) (
              field "severity" (get_or_null "severity_signal" d) (
                field "summary" (legacy_pair (text_of "summary_zh" d) (text_of "summary_en" d)) (
                  field "likely_cause"
                    (legacy_pair (text_of_either "likely_cause_zh" "likely_cause" d)
                      (text_of_either "likely_cause_en" "likely_cause" d))
                    (field "recommended_action"
                      (legacy_pair (text_of_either "recommended_action_zh" "recommended_action" d)
                        (text_of_either "recommended_action_en" "recommended_action" d))
                      (field "findings" (arr (legacy_findings (dicts_of finds))) end))))))))
  legacy_fragment _ = some null

  -- `_pair(fragment, key)`, which raises where the fragment is no dict.
  unfoldable pub pair : Json → String → Option (Option BilingualText)
  pair (obj d) key = elim (or_else (get_or_null key d) (obj end)) [
    | obj v ↦
        if str_eq (text_of "zh" v) "" && str_eq (text_of "en" v) ""
        then some none
        else some (
            some (record {
              text_zh = str (text_of "zh" v);
              text_en = str (text_of "en" v);
              heading_zh = str "Chinese";
              heading_en = str "English";
            }))
    | _ ↦ some none
  ]
  pair _ key = none

  abbrev pub evidence_entries : Fields → List (String × Json)
  evidence_entries d =
      ("Triggered", get_or_null "triggered_at" d)
      ∷ ("Recovered", get_or_null "recovered_at" d)
      ∷ ("Trigger Value", get_or_null "trigger_value" d)
      ∷ []

  -- `_metadata(incident)` and `_evidence_metadata(incident)`.
  unfoldable pub incident_metadata : Fields → List Metadata
  incident_metadata d = facts (
      ("Incident", or_else (get_or_null "display_id" d) (get_or_null "id" d))
      ∷ ("Status", get_or_null "status" d)
      ∷ ("Service", get_or_null "service" d)
      ∷ ("Environment", get_or_null "environment" d)
      ∷ evidence_entries d)

  unfoldable pub evidence_metadata : Fields → List Metadata
  evidence_metadata d = facts (evidence_entries d)

  unfoldable pub bookmark_name : String → String
  bookmark_name incident_id = str_append "log_analysis_" (lib.digest incident_id)

  -- `f"Alert #{number} - {incident.get('title') or incident.get('display_id') or last}"`.
  unfoldable pub alert_heading : String → ℕ → Fields → Json
  alert_heading last number d =
      let title =
        or_else (get_or_null "title" d) (or_else (get_or_null "display_id" d) (str last)) in
      str (
        str_append "Alert #"
          (str_append (lib.to_str (num number)) (str_append " - " (lib.to_str title))))

-- The screenshots of an incident that name their object.
abbrev pub stored : List Fields → List Fields
stored [] = []
stored (d ∷ ds) =
    let rest = stored ds in
    if is_truthy (get_or_null "bucket" d) && is_truthy (get_or_null "object_key" d)
    then d ∷ rest
    else rest

unfoldable pub incident_screenshots : Fields → Option (List Screenshot)
incident_screenshots d = do
  items ← elements (or_else (get_or_null "screenshots" d) (arr nil))
  each_of (λ s. screenshot_from_dict (obj s)) (stored (dicts_of items))

abbrev pub incident_log_file : Fields → Option LogFileReference
incident_log_file d =
    if is_truthy (get_or_null "log_filename" d)
    then some
        (record { filename = get_or_null "log_filename" d; url = get_or_null "log_file_url" d })
    else none
