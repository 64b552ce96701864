-- ===== src/Composition/Select.antt =====
-- Which incidents and analyses a report has: the policies, the checks and the selections of
-- `compose_report` (bridge/noc_bridge/report_composition.py).
use text.Mathlib.Text.{◌==◌ as str_eq}
use noc_report.Common.{
  ℕ, suc, String, Bool, true, false, not, ◌&&◌, ◌||◌, Option, none, some, List, [], ◌∷◌,
  if◌then◌else◌,
}
use noc_report.Json.{
  Json, bool, str, arr, obj, Fields, end, field, get_or_null, or_else, is_truthy, has_key,
}
use noc_report.Document.{AnalysisReference, Blocks, bilingual_text}
use noc_report.Document.Preview.{is_null}
use noc_report.Document.Reading.{◌>>=◌, each_of, get_or, elements}
use noc_report.Composition.{Library, as_dict}
use noc_report.Composition.Blocks.{analysis_block}
use noc_report.Composition.Plan.{
  Dict, lookup, assign, is_in, has_duplicates, Frozen, Parsed, id_of, parse, nothing_parsed,
  narrative_summary,
}

-- `value == text`.
abbrev pub is_str : String → Json → Bool
is_str s (str t) = str_eq t s
is_str s _ = false

-- The report's options, from the snapshot.
pub record Policy : Type 0 where
  pub canonical : Bool
  pub incidents : Json
  pub analyses : Json
  pub duplicate_incidents : Bool
  pub duplicate_analyses : Bool

-- `any(…)` and `[x for x in xs if p(x)]` over the frozen incidents.
abbrev pub keep : {A : Type 0} → (A → Bool) → List A → List A
keep p [] = []
keep p (x ∷ xs) = let rest = keep p xs in if p x then x ∷ rest else rest

abbrev pub each_as : {A B : Type 0} → (A → B) → List A → List B
each_as f [] = []
each_as f (x ∷ xs) = f x ∷ each_as f xs

-- `set(xs) <= set(ys)`.
abbrev pub covers : List String → List String → Bool
covers ys [] = true
covers ys (x ∷ xs) = is_in x ys && covers ys xs

abbrev pub has_run : Fields → Bool
has_run d = is_truthy (get_or_null "analysis_run_id" d)

abbrev as_dict_or_empty : Json → Option Fields
as_dict_or_empty j = as_dict (or_else j (obj end))

unfoldable pub report_policy : Fields → Option Policy
report_policy snapshot = do
  coverage ← as_dict_or_empty (get_or_null "coverage" snapshot)
  let profile =
      or_else (get_or_null "composition_profile" snapshot)
        (get_or_null "composition_profile" coverage)
  let canonical = is_str "noc-daily-report-v1" profile
  let policy : Policy = record {
    canonical = canonical;
    incidents = get_or "incidents" (str "optional") coverage;
    analyses = get_or "analyses" (str "optional") coverage;
    duplicate_incidents = is_truthy (get_or "allow_duplicate_incidents" (bool false) coverage);
    duplicate_analyses = is_truthy (get_or "allow_duplicate_analyses" (bool false) coverage);
  }
  if is_null profile || canonical then some policy else none

-- `incidents[incident_id]` for each id that no id before it equals.
unfoldable pub selected : Frozen → List String → List String → Option (List Fields)
selected frozen seen [] = some []
selected frozen seen (id ∷ ids) =
    let again = selected frozen seen ids in
    if is_in id seen
    then again
    else do d ← lookup id frozen.index; ds ← selected frozen (id ∷ seen) ids; some (d ∷ ds)

unfoldable pub alert_incidents : Policy → Frozen → Parsed → Option (List Fields)
alert_incidents policy frozen s =
    if is_str "all" policy.incidents then some frozen.unique else selected frozen [] s.incident_refs

abbrev pub key_of : {A : Type 0} → String × A → String
key_of e = e.0

unfoldable pub analysis_incidents : Policy → Frozen → Parsed → Option (List Fields)
analysis_incidents policy frozen s =
    if is_str "all_available" policy.analyses
    then some (keep has_run frozen.unique)
    else each_of (λ id. lookup id frozen.index) (each_as key_of s.nodes)

module _ (lib : Library) where
  abbrev pub narrative_plan : Fields → Option Parsed
  narrative_plan plan = do
    text ← narrative_summary lib (get_or_null "general_summary" plan)
    some (record nothing_parsed { summary = bilingual_text text ∷ [] })

  abbrev pub listed_plan : Frozen → Json → Option Parsed
  listed_plan frozen (arr js) = do nodes ← elements (arr js); parse lib frozen nodes nothing_parsed
  listed_plan frozen _ = none

  -- The summary and, where the plan is a list of blocks, the references.
  unfoldable pub parsed_plan : Policy → Frozen → Fields → Option Parsed
  parsed_plan policy frozen plan =
      if has_key "general_summary" plan
      then narrative_plan plan
      else if policy.canonical
      then none
      else listed_plan frozen (get_or_null "blocks" plan)

  abbrev pub run_of : Fields → String
  run_of d = lib.to_str (get_or_null "analysis_run_id" d)

  -- The checks between the reading of the plan and the composition.
  unfoldable pub passes_checks : Policy → Bool → Frozen → Parsed → Bool
  passes_checks policy narrative frozen s =
      (narrative || policy.duplicate_incidents || not (has_duplicates s.incident_refs))
      && (narrative || policy.duplicate_analyses || not (has_duplicates s.analysis_refs))
      && (is_str "all" policy.incidents
          || is_str "none" policy.incidents
          || is_str "optional" policy.incidents)
      && (is_str "all_available" policy.analyses
          || is_str "none" policy.analyses
          || is_str "optional" policy.analyses)
      && (narrative
          || not (is_str "all" policy.incidents)
          || covers s.incident_refs (each_as (id_of lib) frozen.unique))
      && (narrative
          || not (is_str "all_available" policy.analyses)
          || covers s.analysis_refs (each_as run_of (keep has_run frozen.unique)))

  -- `{str(incident["id"]): number for number, incident in enumerate(…, start=n)}`.
  unfoldable pub numbers : ℕ → List Fields → Dict ℕ → Dict ℕ
  numbers n [] known = known
  numbers n (d ∷ ds) known = numbers (suc n) ds (assign (id_of lib d) n known)

  -- The node under which an incident is analysed.
  unfoldable pub node_of : Bool → Parsed → Fields → Option Fields
  node_of narrative s d =
      let found = lookup (id_of lib d) s.nodes in
      if narrative then found else elim found [
        | none ↦ some (field "incident_id" (str (id_of lib d)) end)
        | some node ↦ some node
      ]

  abbrev number_of : Dict ℕ → ℕ → Fields → ℕ
  number_of known i d = elim (lookup (id_of lib d) known) [ none ↦ i | some n ↦ n ]

  unfoldable pub analysis_blocks :
      Bool → Parsed → Dict ℕ → ℕ → List Fields → Option (List (AnalysisReference × Blocks))
  analysis_blocks narrative s known i [] = some []
  analysis_blocks narrative s known i (d ∷ ds) = do
    b ← analysis_block lib d (node_of narrative s d) (number_of known i d)
    bs ← analysis_blocks narrative s known (suc i) ds
    some (b ∷ bs)
