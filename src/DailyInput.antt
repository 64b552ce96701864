-- ===== src/DailyInput.antt =====
-- What the language model is given for a daily report: `build_daily_report_input`
-- (bridge/noc_bridge/daily_report.py). A call that raises is none. The set of the allowed keys of a
-- fragment is iterated in the order in which it is written.
pub mod Exposure
use text.Mathlib.Text.{◌==◌ as str_eq}
use text.Mathlib.TextEquality.{eq_iff}
use noc_report.Common.{
  ◌≡◌, inl, inr, refl, ap, ◌∙◌, arith, ℕ, zero, suc, String, Bool, true, false, ◌||◌, Option, none,
  some, List, [], ◌∷◌, any, Bool-cases, Option-cases, if◌then◌else◌,
}
use noc_report.Json.{
  Json, null, bool, num, neg, real, str, arr, obj, Items, nil, cons, Fields, end, field, get,
  get_or_null, or_else, is_truthy, put, get-put,
}
use noc_report.Document.Reading.{◌>>=◌, elements, list_of}
use noc_report.Composition.{take, dicts_of}

abbrev pub fragment_keys : List String
fragment_keys =
    "contract" ∷ "headline" ∷ "severity" ∷ "summary" ∷ "findings" ∷ "likely_cause"
    ∷ "recommended_action" ∷ []

-- `{key: d[key] for key in keys if key in d}`.
unfoldable pub pick : List String → Fields → Fields
pick [] d = end
pick (k ∷ ks) d = let rest = pick ks d in elim (get k d) [ none ↦ rest | some j ↦ field k j rest ]

abbrev objects : List Fields → Items
objects [] = nil
objects (d ∷ ds) = cons (obj d) (objects ds)

-- At most five findings, those of them that are dicts.
abbrev shorten : Option Json → Fields → Fields
shorten (some (arr js)) d = put "findings" (arr (objects (dicts_of (take 5 (list_of js))))) d
shorten _ d = d

unfoldable pub compact_fragment : Json → Json
compact_fragment (obj d) =
    let result = pick fragment_keys d in obj (shorten (get "findings" result) result)
compact_fragment _ = null

abbrev pub incident_input : ℕ → Fields → Json
incident_input number d = obj (
    field "incident_number" (num number) (
      field "title" (get_or_null "title" d) (
        field "status" (get_or_null "status" d) (
          field "service" (get_or_null "service" d) (
            field "environment" (get_or_null "environment" d) (
              field "report_fragment" (compact_fragment (get_or_null "report_fragment" d)) end))))))

-- What is no dict is left out, and counts for the numbers of the others.
unfoldable pub incident_inputs : ℕ → List Json → Items
incident_inputs number [] = nil
incident_inputs number (obj d ∷ js) =
    cons (incident_input number d) (incident_inputs (suc number) js)
incident_inputs number (j ∷ js) = incident_inputs (suc number) js

-- The loop over `snapshot.get("incidents") or []`.
unfoldable pub read_incidents : Json → Option Items
read_incidents j = do incidents ← elements (or_else j (arr nil)); some (incident_inputs 1 incidents)

abbrev pub shift_input : Fields → Json
shift_input snapshot = obj (
    field "name"
      (or_else (get_or_null "shift_display_name" snapshot) (get_or_null "shift_name" snapshot))
      (field "timezone" (or_else (get_or_null "shift_timezone" snapshot) (str "UTC")) end))

abbrev pub input_of : Fields → Items → Json
input_of snapshot incidents = obj (
    field "schema_version" (str "daily-report-context-v1") (
      field "task" (str "daily_report") (
        field "language_order" (arr (cons (str "zh-CN") (cons (str "en") nil)))
          (field "shift" (shift_input snapshot) (field "incidents" (arr incidents) end)))))

unfoldable pub build_daily_report_input : Json → Option Json
build_daily_report_input (obj snapshot) = do
  incidents ← read_incidents (get_or_null "incidents" snapshot)
  some (input_of snapshot incidents)
build_daily_report_input _ = none
