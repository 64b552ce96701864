-- ===== src/Composition/Blocks.antt =====
-- The blocks of one incident: `_incident_block` and `_analysis_block`
-- (bridge/noc_bridge/report_composition.py).
use text.Mathlib.Text.{◌==◌ as str_eq}
use noc_report.Common.{
  ℕ, String, Bool, true, false, not, ◌&&◌, ◌||◌, Option, none, some, is_none, List, [], ◌∷◌,
  if◌then◌else◌,
}
use noc_report.Json.{Json, null, bool, num, str, Fields, get, get_or_null, is_truthy}
use noc_report.Document.{
  Link, Metadata, BilingualText, IncidentEvidence, AnalysisReference, Blocks, no_blocks, block,
  heading, bilingual_text,
}
use noc_report.Document.Preview.{is_null}
use noc_report.Document.Reading.{◌>>=◌}
use noc_report.Composition.{
  Library, as_dict, as_text, facts, legacy_fragment, pair, incident_metadata, evidence_metadata,
  bookmark_name, alert_heading, incident_screenshots, incident_log_file,
}
use noc_report.Composition.Presentation.{build_analysis_presentation}

abbrev link_to : String → String → String → Fields → List Link → List Link
link_to label key prefix d rest =
    let url = get_or_null key d in
    if is_truthy url
    then record { label = str label; url = url; text = str label; prefix = str prefix } ∷ rest
    else rest

-- The links of an incident. The canonical report leaves Teams out.
unfoldable pub incident_links : Bool → Fields → List Link
incident_links canonical d =
    let grafana = link_to "Grafana" "grafana_url" "Grafana Link" d [] in
    if canonical then grafana else link_to "Teams" "teams_url" "Teams Link" d grafana

module _ (lib : Library) where
  unfoldable pub incident_block : Bool → Fields → ℕ → Json → Option IncidentEvidence
  incident_block canonical d number target = do
    shots ← incident_screenshots d
    id ← get "id" d
    some (record {
      heading = alert_heading lib "Incident" number d;
      incident_id = as_text lib id;
      metadata = if canonical then evidence_metadata lib d else incident_metadata lib d;
      link = none;
      links = incident_links canonical d;
      log_file = incident_log_file d;
      screenshots = shots;
      navigation_target = target;
    })

  -- An analysis that cannot be shown.
  unfoldable pub unavailable : Fields → ℕ → Json → String → Option AnalysisReference
  unavailable d number run_id why = do
    id ← get "id" d
    some (record {
      heading = alert_heading lib "Analysis" number d;
      available = bool false;
      incident_id = as_text lib id;
      analysis_run_id = run_id;
      unavailable_text = str why;
      metadata = [];
      provenance = [];
      screenshots = [];
      log_file = none;
      summary = none;
      key_finds = none;
      secondary_finds = none;
      likely_cause = none;
      recommended_action = none;
      bookmark = null;
    })

  -- Whether a node of the plan asks for this incident and for its frozen run.
  unfoldable pub node_matches : Option Fields → Fields → Bool
  node_matches none d = true
  node_matches (some node) d =
      let run = get_or_null "analysis_run_id" node in
      let named = get_or_null "incident_id" node in
      not (is_null run && is_null named)
      && (is_null named
          || str_eq (lib.to_str named) (lib.to_str (get_or_null "id" d))
          || str_eq (lib.to_str named) (lib.to_str (get_or_null "display_id" d)))
      && (is_null run || str_eq (lib.to_str run) (lib.to_str (get_or_null "analysis_run_id" d)))

  abbrev pub fragment_of : Fields → Option Json
  fragment_of d =
      let own = get_or_null "report_fragment" d in
      let legacy = legacy_fragment lib (get_or_null "analysis" d) in
      if is_truthy own then some own else legacy

  abbrev titled : String → Option BilingualText → Blocks → Blocks
  titled label none rest = rest
  titled label (some t) rest =
      block (heading (record { text = str label; level = num 3 })) (block (bilingual_text t) rest)

  abbrev untitled : Option BilingualText → Blocks → Blocks
  untitled none rest = rest
  untitled (some t) rest = block (bilingual_text t) rest

  -- The children of an analysis whose presentation is empty come from its compact fragment.
  unfoldable pub children_or_fragment : Json → Blocks → Option Blocks
  children_or_fragment fragment no_blocks = do
    summary ← pair lib fragment "summary"
    cause ← pair lib fragment "likely_cause"
    action ← pair lib fragment "recommended_action"
    some (
        untitled summary
          (titled "Likely Cause" cause (titled "Recommended Action" action no_blocks)))
  children_or_fragment fragment bs = some bs

  unfoldable pub provenance_of : Fields → List Metadata
  provenance_of d = facts lib (
      ("Skill Snapshot", get_or_null "analysis_skill_snapshot_id" d)
      ∷ ("Execution Hash", get_or_null "analysis_skill_execution_hash" d)
      ∷ ("Skill Version", get_or_null "analysis_skill_version" d)
      ∷ ("Result Hash", get_or_null "analysis_output_sha256" d)
      ∷ ("Model", get_or_null "analysis_model" d)
      ∷ ("Effort", get_or_null "analysis_effort" d)
      ∷ [])

  unfoldable pub available_analysis : Fields → ℕ → Json → Option (AnalysisReference × Blocks)
  available_analysis d number fragment = do
    presented ←
        build_analysis_presentation lib (get_or_null "analysis" d)
          (get_or_null "analysis_presentation_contract" d)
    children ← children_or_fragment fragment presented
    shots ← incident_screenshots d
    id ← get "id" d
    let shown : AnalysisReference = record {
      heading = alert_heading lib "Analysis" number d;
      available = bool true;
      incident_id = as_text lib id;
      analysis_run_id = as_text lib (get_or_null "analysis_run_id" d);
      unavailable_text = null;
      metadata = [];
      provenance = provenance_of d;
      screenshots = shots;
      log_file = incident_log_file d;
      summary = none;
      key_finds = none;
      secondary_finds = none;
      likely_cause = none;
      recommended_action = none;
      bookmark = str (bookmark_name lib (lib.to_str id));
    }
    some (shown, block (heading (record { text = str "Log Analysis"; level = num 3 })) children)

  abbrev pub without_children : Option AnalysisReference → Option (AnalysisReference × Blocks)
  without_children a = do b ← a; some (b, no_blocks)

  abbrev pub frozen : Fields → ℕ → Option Json → Option (AnalysisReference × Blocks)
  frozen d number none = none
  frozen d number (some fragment) =
      if is_none (as_dict fragment) && is_none (as_dict (get_or_null "analysis" d))
      then without_children (
          unavailable d number (as_text lib (get_or_null "analysis_run_id" d))
            "The frozen analysis has no report export.")
      else available_analysis d number fragment

  unfoldable pub analysis_block : Fields → Option Fields → ℕ → Option (AnalysisReference × Blocks)
  analysis_block d node number =
      if not (node_matches node d)
      then none
      else if not (is_truthy (get_or_null "analysis_run_id" d))
      then without_children
          (unavailable d number null "No log analysis available for this incident.")
      else frozen d number (fragment_of d)
