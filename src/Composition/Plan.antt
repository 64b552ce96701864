-- ===== src/Composition/Plan.antt =====
-- What `compose_report` (bridge/noc_bridge/report_composition.py) reads before it composes: the index
-- of the frozen incidents, and the nodes of a plan (`parse`).
use text.Mathlib.Text.{◌==◌ as str_eq}
use noc_report.Common.{
  String, Bool, false, not, ◌&&◌, ◌||◌, Option, none, some, List, [], ◌∷◌, ◌++◌, ◌==◌, any, is_none,
  if◌then◌else◌,
}
use noc_report.Json.{Json, num, str, arr, obj, nil, Fields, get, get_or_null, or_else, is_truthy}
use noc_report.Document.{Block, heading, paragraph, bilingual_text, divider, BilingualText}
use noc_report.Document.Reading.{◌>>=◌, get_or, elements}
use noc_report.Composition.{Library, text_of}

-- A dict from texts, in the order of insertion.
abbrev pub Dict : Type 0 → Type 0
Dict A = List (String × A)

module _ {A : Type 0} where
  unfoldable pub lookup : String → Dict A → Option A
  lookup k [] = none
  lookup k ((j, a) ∷ d) = let rest = lookup k d in if str_eq j k then some a else rest

  -- `d[k] = a`: a key that is there keeps its place.
  unfoldable pub assign : String → A → Dict A → Dict A
  assign k a [] = (k, a) ∷ []
  assign k a ((j, b) ∷ d) =
      let rest = assign k a d in if str_eq j k then (j, a) ∷ d else (j, b) ∷ rest

-- `s in xs`, and `len(xs) != len(set(xs))`.
unfoldable pub is_in : String → List String → Bool
is_in s xs = any (str_eq s) xs

unfoldable pub has_duplicates : List String → Bool
has_duplicates [] = false
has_duplicates (x ∷ xs) = is_in x xs || has_duplicates xs

-- The frozen incidents by id and by display id, and each of them once.
pub record Frozen : Type 0 where
  pub index : Dict Fields
  pub unique : List Fields

-- What the loop over the nodes of a plan collects.
pub record Parsed : Type 0 where
  pub incident_refs : List String
  pub analysis_refs : List String
  pub nodes : Dict Fields
  pub summary : List Block

abbrev pub nothing_parsed : Parsed
nothing_parsed = record { incident_refs = []; analysis_refs = []; nodes = []; summary = [] }

abbrev pub top_level_headings : List String
top_level_headings = "Alerts" ∷ "General Summary" ∷ "Log Analysis" ∷ []

abbrev pub is_one : Json → Bool
is_one (num n) = n == 1
is_one _ = false

abbrev pub is_kind : String → Fields → Bool
is_kind kind node = elim (get_or_null "type" node) [ str s ↦ str_eq s kind | _ ↦ false ]

module _ (lib : Library) where
  abbrev pub id_of : Fields → String
  id_of d = lib.to_str (get_or_null "id" d)

  -- A new key of the index; a key that is there raises.
  abbrev pub add_key : String → Fields → Dict Fields → Option (Dict Fields)
  add_key k d index = if is_none (lookup k index) then some (index ++ ((k, d) ∷ [])) else none

  unfoldable pub register : Fields → Dict Fields → Option (Dict Fields)
  register d index = if not (is_truthy (get_or_null "id" d)) then none else do
    named ← add_key (id_of d) d index
    let display = get_or_null "display_id" d
    let both = add_key (lib.to_str display) d named
    if is_truthy display then both else some named

  unfoldable pub collect : List Json → Dict Fields → Option Frozen
  collect [] index = some (record { index = index; unique = [] })
  collect (obj d ∷ js) index = do
    index' ← register d index
    rest ← collect js index'
    some (record rest { unique = d ∷ rest.unique })
  collect (j ∷ js) index = none

  unfoldable pub frozen_incidents : Fields → Option Frozen
  frozen_incidents snapshot = do
    js ← elements (or_else (get_or_null "incidents" snapshot) (arr nil))
    collect js []

  abbrev add_block : Parsed → Block → Parsed
  add_block s b = record s { summary = s.summary ++ (b ∷ []) }

  unfoldable pub heading_node : Fields → Parsed → Option Parsed
  heading_node node s = do
    raw ← get "text" node
    level ← lib.to_int (get_or "level" (num 1) node)
    let text = lib.to_str raw
    if is_in text top_level_headings && is_one level
        then some s
        else some (add_block s (heading (record { text = str text; level = level })))

  abbrev has_run : String → Fields → Bool
  has_run run d = str_eq (lib.to_str (get_or_null "analysis_run_id" d)) run

  abbrev first_with : (Fields → Bool) → List Fields → Option Fields
  first_with p [] = none
  first_with p (d ∷ ds) = let rest = first_with p ds in if p d then some d else rest

  -- The incident that an analysis node names, by its incident or else by its run.
  unfoldable pub analysed_incident : Frozen → Fields → Option Fields
  analysed_incident frozen node =
      let ref = text_of lib "incident_id" node in
      let run = text_of lib "analysis_run_id" node in
      if str_eq ref "" then first_with (has_run run) frozen.unique else lookup ref frozen.index

  abbrev pub add_analysis : Fields → Fields → Parsed → Parsed
  add_analysis node d s =
      let run = get_or_null "analysis_run_id" d in
      record s {
        analysis_refs =
            if is_truthy run then s.analysis_refs ++ (lib.to_str run ∷ []) else s.analysis_refs;
        nodes = assign (id_of d) node s.nodes;
      }

  unfoldable pub incident_node : Frozen → Fields → Parsed → Option Parsed
  incident_node frozen node s = do
    d ← lookup (text_of lib "incident_id" node) frozen.index
    some (record s { incident_refs = s.incident_refs ++ (id_of d ∷ []) })

  unfoldable pub analysis_node : Frozen → Fields → Parsed → Option Parsed
  analysis_node frozen node s = do d ← analysed_incident frozen node; some (add_analysis node d s)

  -- One round of the loop of `parse`.
  unfoldable pub parse_node : Frozen → Json → Parsed → Option Parsed
  parse_node frozen (obj node) s =
      if is_kind "heading" node
      then heading_node node s
      else if is_kind "paragraph" node
      then some (
          add_block s (
            paragraph
              (record { text = str (text_of lib "text" node); style = get_or_null "style" node })))
      else if is_kind "bilingual_generated_text" node
      then some (
          add_block s (
            bilingual_text (record {
              text_zh = str (text_of lib "zh" node);
              text_en = str (text_of lib "en" node);
              heading_zh = or_else (get_or_null "heading_zh" node) (str "Chinese Summary");
              heading_en = or_else (get_or_null "heading_en" node) (str "English Summary");
            })))
      else if is_kind "incident_reference" node
      then incident_node frozen node s
      else if is_kind "analysis_reference" node
      then analysis_node frozen node s
      else if is_kind "divider" node
      then some (add_block s divider)
      else if is_kind "page_break" node
      then some s
      else none
  parse_node frozen _ s = none

  unfoldable pub parse : Frozen → List Json → Parsed → Option Parsed
  parse frozen [] s = some s
  parse frozen (node ∷ nodes) s = do s' ← parse_node frozen node s; parse frozen nodes s'

  unfoldable pub required_text : Json → Option Json
  required_text (str s) = if lib.is_blank s then none else some (str s)
  required_text _ = none

  -- `narrative_summary(value, …)`.
  unfoldable pub narrative_summary : Json → Option BilingualText
  narrative_summary (obj d) = do
    zh ← required_text (get_or_null "zh" d)
    en ← required_text (get_or_null "en" d)
    some (record {
      text_zh = zh;
      text_en = en;
      heading_zh = str "Chinese Summary";
      heading_en = str "English Summary";
    })
  narrative_summary _ = none
