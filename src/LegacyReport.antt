-- ===== src/LegacyReport.antt =====
-- The historical report shape: `build_daily_report_document`
-- (bridge/noc_bridge/report_document.py) and `validate_merged_daily_report`
-- (bridge/noc_bridge/report_validation.py). A call that raises is none, a check that raises is false.
pub mod Checks
pub mod Assembly
use Prim.Native.String.{◌++◌ as str_append}
use noc_report.Common.{
  ℕ, suc, String, Bool, true, false, ◌||◌, Option, none, some, List, [], ◌∷◌, if◌then◌else◌,
}
use noc_report.Json.{
  Json, null, bool, num, str, arr, nil, Fields, get, get_or_null, or_else, is_truthy,
}
use noc_report.Document.{
  Heading, Paragraph, Metadata, Link, LogFileReference, Screenshot, BilingualText, Find,
  BilingualFindList, IncidentEvidence, AnalysisReference, Block, Blocks, no_blocks, block,
  ReportDocument, heading, paragraph, page_break, bilingual_text,
}
use noc_report.Document.Reading.{◌>>=◌, each_of, get_or, elements, screenshot_from_dict}
use noc_report.Composition.{Library, as_dict}
use noc_report.Composition.Presentation.{stat_of}
use noc_report.Composition.Layout.{section, with_incidents, with_all, with_analyses}

-- `section.get("screenshots") or []`.
unfoldable pub section_screenshots : Fields → Option (List Screenshot)
section_screenshots d = do
  js ← elements (or_else (get_or_null "screenshots" d) (arr nil))
  each_of screenshot_from_dict js

abbrev legacy_log_file : Json → Fields → Option LogFileReference
legacy_log_file url d =
    if is_truthy (get_or_null "log_filename" d)
    then some (record { filename = get_or_null "log_filename" d; url = url })
    else none

abbrev missing_analysis : Json → AnalysisReference
missing_analysis title = record {
  heading = title;
  available = bool false;
  incident_id = null;
  analysis_run_id = null;
  unavailable_text = str "No log analysis available yet for this incident.";
  metadata = [];
  provenance = [];
  screenshots = [];
  log_file = none;
  summary = none;
  key_finds = none;
  secondary_finds = none;
  likely_cause = none;
  recommended_action = none;
  bookmark = null;
}

abbrev legacy_link : Fields → Option Link
legacy_link d =
    let url = get_or_null "grafana_url" d in
    if is_truthy url
    then some (record {
      label = str "Grafana";
      url = url;
      text = str "Grafana";
      prefix = str "Grafana Link";
    })
    else none

-- `enumerate(sections, start=i)`, where each section has to be a dict.
unfoldable pub each_section :
    {A : Type 0} → (ℕ → Fields → Option A) → ℕ → List Json → Option (List A)
each_section f i [] = some []
each_section f i (j ∷ js) = do
  d ← as_dict j
  a ← f i d
  rest ← each_section f (suc i) js
  some (a ∷ rest)

abbrev two_texts : Json → Json → String → String → Block
two_texts zh en heading_zh heading_en = bilingual_text (record {
  text_zh = or_else zh (str "");
  text_en = or_else en (str "");
  heading_zh = str heading_zh;
  heading_en = str heading_en;
})

-- The section on findings across incidents, where there are any.
unfoldable pub cross_findings : Json → Json → List Block
cross_findings zh en =
    if is_truthy en || is_truthy zh
    then heading (record { text = str "Cross-Incident Findings"; level = num 3 })
      ∷ two_texts zh en "Chinese" "English"
      ∷ []
    else []

abbrev no_incidents : Json → List Block
no_incidents sections =
    if is_truthy sections
    then []
    else paragraph (record { text = str "No incidents in this shift."; style = null }) ∷ []

module _ (lib : Library) where
  -- `_find_zh` and `_find`.
  unfoldable pub legacy_find : Bool → Json → Option Find
  legacy_find zh j = do
    d ← as_dict j
    stat ← stat_of lib (get_or_null "count" d) (get_or_null "percentage" d)
    let english = get_or_null "label_en" d
    let chinese = get_or_null "label_zh" d
    some (record {
      label =
          if zh
          then or_else chinese (or_else english (str ""))
          else or_else english (or_else chinese (str ""));
      detail = if zh then get_or_null "detail_zh" d else get_or_null "detail_en" d;
      stat = stat;
    })

  abbrev find_lists : String → String → List Json → Option (Option BilingualFindList)
  find_lists zh en finds = do
    finds_zh ← each_of (legacy_find true) finds
    finds_en ← each_of (legacy_find false) finds
    some (
        some (record {
          heading_zh = str zh;
          heading_en = str en;
          finds_zh = finds_zh;
          finds_en = finds_en;
        }))

  abbrev find_lists_if : Bool → String → String → Json → Option (Option BilingualFindList)
  find_lists_if false zh en finds = some none
  find_lists_if true zh en finds = do js ← elements finds; find_lists zh en js

  -- `_bilingual_find_list`.
  unfoldable pub legacy_find_lists : String → String → Json → Option (Option BilingualFindList)
  legacy_find_lists zh en finds = find_lists_if (is_truthy finds) zh en finds

  -- A text with its label in front, or an empty one.
  abbrev labelled : String → Json → Json
  labelled label j = if is_truthy j then str (str_append label (lib.to_str j)) else str ""

  -- The texts of two keys with their labels, where one of them is there.
  unfoldable pub labelled_pair : String → String → Json → Json → Option BilingualText
  labelled_pair label_zh label_en zh en =
      if is_truthy zh || is_truthy en
      then some (record {
        text_zh = labelled label_zh zh;
        text_en = labelled label_en en;
        heading_zh = null;
        heading_en = null;
      })
      else none

  -- `f"Alert #{i} - {section['title']}"`.
  abbrev pub legacy_heading : ℕ → Json → Json
  legacy_heading i title =
      str (
        str_append "Alert #"
          (str_append (lib.to_str (num i)) (str_append " - " (lib.to_str title))))

  abbrev present_analysis : Fields → Json → Fields → Option AnalysisReference
  present_analysis d title analysis = do
    shots ← section_screenshots d
    key_finds ←
        legacy_find_lists "重点发现 (Key Finds)" "Key Finds"
          (or_else (get_or_null "key_finds" analysis) (arr nil))
    secondary_finds ←
        legacy_find_lists "次要发现 (Secondary Finds)" "Secondary Finds"
          (or_else (get_or_null "secondary_finds" analysis) (arr nil))
    some (record {
      heading = title;
      available = bool true;
      incident_id = get_or_null "incident_id" d;
      analysis_run_id = null;
      unavailable_text = null;
      metadata = [];
      provenance = [];
      screenshots = shots;
      log_file = legacy_log_file (get_or_null "log_file_url" d) d;
      summary = some (record {
        text_zh = or_else (get_or_null "summary_zh" analysis) (str "");
        text_en = or_else (get_or_null "summary_en" analysis) (str "");
        heading_zh = str "Chinese";
        heading_en = str "English";
      });
      key_finds = key_finds;
      secondary_finds = secondary_finds;
      likely_cause =
          labelled_pair "最可能原因: " "Likely cause: " (get_or_null "likely_cause_zh" analysis)
            (get_or_null "likely_cause_en" analysis);
      recommended_action =
          labelled_pair "建议措施: " "Recommended action: "
            (get_or_null "recommended_action_zh" analysis)
            (get_or_null "recommended_action_en" analysis);
      bookmark = null;
    })

  abbrev pub analysis_of : Fields → Json → Json → Option AnalysisReference
  analysis_of d title null = some (missing_analysis title)
  analysis_of d title j = do analysis ← as_dict j; present_analysis d title analysis

  -- `_analysis_reference`, with the heading that the caller puts in the place of its own.
  unfoldable pub legacy_analysis : ℕ → Fields → Option (AnalysisReference × Blocks)
  legacy_analysis i d = do
    display ← get "incident_display_id" d
    title ← get "title" d
    a ← analysis_of d (legacy_heading i title) (get_or_null "analysis" d)
    some (a, no_blocks)

  unfoldable pub legacy_evidence : ℕ → Fields → Option IncidentEvidence
  legacy_evidence i d = do
    display ← get "incident_display_id" d
    status ← get "status" d
    shots ← section_screenshots d
    title ← get "title" d
    some (record {
      heading = legacy_heading i title;
      incident_id = null;
      metadata =
          record { label = str "Incident"; value = display }
          ∷ record { label = str "Status"; value = status }
          ∷ [];
      link = legacy_link d;
      links = [];
      log_file = legacy_log_file null d;
      screenshots = shots;
      navigation_target = null;
    })

  unfoldable pub build_daily_report_document : Fields → Option ReportDocument
  build_daily_report_document d = do
    let sections = get_or "sections" (arr nil) d
    js ← elements sections
    evidence ← each_section legacy_evidence 1 js
    analyses ← each_section legacy_analysis 1 js
    title ← get "title" d
    let overview =
        two_texts (get_or_null "overview_zh" d) (get_or_null "overview_en" d) "Chinese Summary"
          "English Summary"
    let cross =
        cross_findings (get_or_null "cross_incident_findings_zh" d)
          (get_or_null "cross_incident_findings_en" d)
    some (record {
      title = title;
      blocks = section "Alerts" (
          with_all (no_incidents sections) (
            with_incidents evidence (
              block page_break (
                section "General Summary" (
                  block overview (
                    with_all cross (
                      block page_break
                        (section "Log Analysis" (with_analyses analyses no_blocks)))))))));
      metadata = [];
      provenance = [];
    })
