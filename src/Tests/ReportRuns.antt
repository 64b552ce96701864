-- ===== src/Tests/ReportRuns.antt =====
-- A canonical report of two incidents, one of which has an analysis.
use text.Mathlib.Text.{◌==◌ as str_eq}
use noc_report.Common.{◌==◌, ◌≡◌, refl, String, true, false, none, some, [], All, if◌then◌else◌}
use noc_report.Json.{
  Json, null, str, num, arr, obj, nil, cons, Fields, end, field, get, get_or_null, has_key,
}
use noc_report.Document.{Screenshot, no_blocks, ReportDocument}
use noc_report.Document.Preview.{descriptor, document_to_preview_json}
use noc_report.Document.Reading.{screenshot_from_dict}
use noc_report.Document.Descriptors.{screenshot_from_dict-descriptor}
use noc_report.Document.Redaction.{without_private, preview-without_private}
use noc_report.Document.Numbering.{
  shown, numbered, descriptors, screenshots_of_all, preview-numbers,
}
use noc_report.Composition.{
  Library, facts, legacy_fragment, evidence_metadata, bookmark_name, alert_heading,
  incident_screenshots,
}
use noc_report.Composition.Presentation.{
  present_find_list, language_section, build_analysis_presentation,
}
use noc_report.Composition.Blocks.{
  incident_links, incident_block, unavailable, node_matches, children_or_fragment, provenance_of,
  available_analysis, analysis_block,
}
use noc_report.Composition.Plan.{
  lookup, assign, is_in, has_duplicates, register, collect, frozen_incidents, required_text,
  narrative_summary,
}
use noc_report.Composition.Layout.{targets, navigation, incident_blocks}
use noc_report.Composition.Select.{
  Policy, report_policy, parsed_plan, passes_checks, alert_incidents, analysis_incidents, numbers,
  node_of, analysis_blocks,
}
use noc_report.Composition.Compose.{parse_timestamp, report_date, composed, compose_report}
use noc_report.Composition.Shape.{gather, incident_in, analysis_in, entries_in}
use noc_report.Composition.Targets.{IsBookmark, HasLink, compose_report-links}
use noc_report.Composition.Narrative.{compose_report-canonical}

abbrev to_str : Json → String
to_str (str s) = s
to_str (num n) = if n == 1 then "1" else "2"
to_str null = "None"
to_str _ = "?"

abbrev lib : Library
lib = record {
  to_str = to_str;
  to_int = λ j. some j;
  with_commas = λ j. some (to_str j);
  digest = λ s. s;
  is_blank = λ s. str_eq s "";
  strip = λ s. s;
  before_z = λ s. none;
  is_zone = λ s. str_eq s "UTC";
  from_iso = λ s. some 0;
  day_in_zone = λ zone t. "Monday, 01 June 2026";
  limit = 9;
}

abbrev picture : Screenshot
picture = record {
  bucket = str "b";
  object_key = str "k";
  filename = str "cpu.png";
  version_id = null;
  sha256 = str "s";
  content_type = null;
  byte_size = num 2;
}

abbrev first : Fields
first = field "id" (str "i1") (
    field "title" (str "CPU") (
      field "analysis_run_id" (str "r1") (
        field "analysis" (obj (field "summary_en" (str "Load") end)) (
          field "screenshots"
            (arr (cons (obj (field "bucket" (str "b") (field "object_key" (str "k") end))) nil))
            end))))

abbrev second : Fields
second = field "id" (str "i2") (field "display_id" (str "INC-2") end)

abbrev snapshot : Fields
snapshot =
    field "coverage"
      (obj (field "incidents" (str "all") (field "analyses" (str "all_available") end)))
      (field "composition_profile" (str "noc-daily-report-v1") (
        field "incidents" (arr (cons (obj first) (cons (obj second) nil)))
          (field "shift_starts_at" (str "2026-06-01T00:00:00Z") end)))

abbrev plan : Fields
plan = field "general_summary" (obj (field "zh" (str "Z") (field "en" (str "E") end))) end

-- The plan with a request that a canonical report does not read.
abbrev wider_plan : Fields
wider_plan = field "blocks" (arr nil) plan

abbrev policy : Policy
policy = record {
  canonical = true;
  incidents = str "all";
  analyses = str "all_available";
  duplicate_incidents = false;
  duplicate_analyses = false;
}

abbrev no_report : ReportDocument
no_report = record { title = null; blocks = no_blocks; metadata = []; provenance = [] }

unfoldable report : ReportDocument
report = elim (compose_report lib (obj plan) snapshot) [ none ↦ no_report | some d ↦ d ]

report_is_composed : compose_report lib (obj plan) snapshot ≡ some report
unfolding report compose_report composed get has_key report_policy frozen_incidents collect register
    lookup parsed_plan narrative_summary required_text passes_checks is_in has_duplicates
    alert_incidents analysis_incidents numbers assign node_of analysis_blocks analysis_block
    node_matches available_analysis unavailable build_analysis_presentation language_section
    present_find_list children_or_fragment incident_screenshots screenshot_from_dict targets
    navigation incident_blocks incident_block report_date parse_timestamp legacy_fragment facts
    alert_heading bookmark_name provenance_of incident_links evidence_metadata
report_is_composed = refl

snapshot_policy : report_policy snapshot ≡ some policy
unfolding report_policy get
snapshot_policy = refl

keys_agree : has_key "general_summary" plan ≡ has_key "general_summary" wider_plan
unfolding has_key
keys_agree = refl

summaries_agree :
    narrative_summary lib (get_or_null "general_summary" plan)
    ≡ narrative_summary lib (get_or_null "general_summary" wider_plan)
unfolding get
summaries_agree = refl

compose_report-links_example :
    All
      (λ e. IsBookmark (gather analysis_in report.blocks) e.target)
      (gather entries_in report.blocks)
    × All (HasLink (gather analysis_in report.blocks)) (gather incident_in report.blocks)
compose_report-links_example = compose_report-links lib plan snapshot report report_is_composed

compose_report-canonical_example :
    compose_report lib (obj plan) snapshot ≡ compose_report lib (obj wider_plan) snapshot
compose_report-canonical_example =
    compose_report-canonical lib plan wider_plan snapshot policy snapshot_policy refl keys_agree
      summaries_agree

preview-without_private_example :
    (document_to_preview_json (without_private report)).0 ≡ (document_to_preview_json report).0
preview-without_private_example = preview-without_private report

preview-numbers_example :
    ((document_to_preview_json report).1 ≡ descriptors (screenshots_of_all report.blocks))
    × (shown (document_to_preview_json report).0 ≡ numbered 0 (document_to_preview_json report).1)
preview-numbers_example = preview-numbers report

screenshot_from_dict-descriptor_example :
    screenshot_from_dict (obj (descriptor picture)) ≡ some picture
screenshot_from_dict-descriptor_example = screenshot_from_dict-descriptor picture refl refl
