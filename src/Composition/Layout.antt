-- ===== src/Composition/Layout.antt =====
-- The sections of a report, and the links between them, as the end of `compose_report`
-- (bridge/noc_bridge/report_composition.py) lays them out.
use noc_report.Common.{ℕ, suc, String, Bool, ◌&&◌, Option, none, some, List, [], ◌∷◌, if◌then◌else◌}
use noc_report.Json.{Json, null, num, str, Fields, get_or_null, or_else, is_truthy}
use noc_report.Document.{
  NavigationEntry, IncidentEvidence, AnalysisReference, Block, Blocks, no_blocks, block,
  ReportDocument, heading, page_break, alert_navigation, incident_evidence, analysis_reference,
}
use noc_report.Document.Reading.{◌>>=◌}
use noc_report.Composition.{Library, as_text, facts, alert_heading}
use noc_report.Composition.Blocks.{incident_block}
use noc_report.Composition.Plan.{Dict, lookup, assign, id_of}

-- One entry of `target_by_incident`. Ids of incidents in blocks are texts.
abbrev pub assign_named : Json → Json → Dict Json → Dict Json
assign_named (str id) target known = assign id target known
assign_named _ target known = known

abbrev pub has_target : AnalysisReference → Bool
has_target b = is_truthy b.available && is_truthy b.incident_id && is_truthy b.bookmark

unfoldable pub targets : List (AnalysisReference × Blocks) → Dict Json → Dict Json
targets [] known = known
targets ((b, children) ∷ bs) known =
    targets bs (if has_target b then assign_named b.incident_id b.bookmark known else known)

abbrev pub section : String → Blocks → Blocks
section title rest = block (heading (record { text = str title; level = num 1 })) rest

abbrev pub with_navigation : List NavigationEntry → Blocks → Blocks
with_navigation [] rest = rest
with_navigation (e ∷ es) rest = block (alert_navigation (e ∷ es)) rest

abbrev pub with_incidents : List IncidentEvidence → Blocks → Blocks
with_incidents [] rest = rest
with_incidents (b ∷ bs) rest = block (incident_evidence b) (with_incidents bs rest)

abbrev pub with_all : List Block → Blocks → Blocks
with_all [] rest = rest
with_all (b ∷ bs) rest = block b (with_all bs rest)

abbrev pub with_analyses : List (AnalysisReference × Blocks) → Blocks → Blocks
with_analyses [] rest = rest
with_analyses ((b, children) ∷ bs) rest =
    block (analysis_reference b children) (with_analyses bs rest)

-- `parsed_blocks`.
abbrev pub layout :
    List NavigationEntry
    → List IncidentEvidence
    → List Block
    → List (AnalysisReference × Blocks)
    → Blocks
layout entries alerts summary analyses = section "Alerts" (
    with_navigation entries (
      with_incidents alerts (
        block page_break (
          section "General Summary" (
            with_all summary
              (block page_break (section "Log Analysis" (with_analyses analyses no_blocks))))))))

-- An incident that has no target has no entry.
abbrev pub with_entry : Json → Option Json → List NavigationEntry → List NavigationEntry
with_entry title none rest = rest
with_entry title (some target) rest = record { text = title; target = target } ∷ rest

module _ (lib : Library) where
  -- The entries of the navigation, numbered from n.
  unfoldable pub navigation : Dict Json → ℕ → List Fields → List NavigationEntry
  navigation known n [] = []
  navigation known n (d ∷ ds) =
      with_entry (alert_heading lib "Incident" n d) (lookup (id_of lib d) known)
        (navigation known (suc n) ds)

  -- `target_by_incident.get(…)`.
  abbrev pub target_of : Dict Json → Fields → Json
  target_of known d = elim (lookup (id_of lib d) known) [ none ↦ null | some t ↦ t ]

  unfoldable pub incident_blocks :
      Bool → Dict Json → ℕ → List Fields → Option (List IncidentEvidence)
  incident_blocks canonical known n [] = some []
  incident_blocks canonical known n (d ∷ ds) = do
    b ← incident_block lib canonical d n (target_of known d)
    bs ← incident_blocks canonical known (suc n) ds
    some (b ∷ bs)

  abbrev shift_name : Fields → Json
  shift_name snapshot = or_else (get_or_null "shift_display_name" snapshot) (
      or_else (get_or_null "shift_code" snapshot)
        (or_else (get_or_null "shift_name" snapshot) (str "Shift")))

  -- The document, from the blocks and the day.
  abbrev pub finished : Fields → String → Blocks → ReportDocument
  finished snapshot day blocks = record {
    title = str "Daily Alert & Log Analysis Report";
    blocks = blocks;
    metadata =
        record { label = str "Date"; value = as_text lib (str day) }
        ∷ record { label = str "Shift"; value = as_text lib (shift_name snapshot) }
        ∷ [];
    provenance = facts lib (
        ("Report Skill Snapshot", get_or_null "report_skill_snapshot_id" snapshot)
        ∷ ("Report Execution Hash", get_or_null "report_skill_execution_hash" snapshot)
        ∷ []);
  }
