-- ===== src/Tests/InputRuns.antt =====
-- The input of a daily report, and a report of the historical shape.
use text.Mathlib.Text.{◌==◌ as str_eq}
use noc_report.Common.{◌≡◌, refl, true, false, none, some, is_none}
use noc_report.Json.{
  Json, num, str, arr, obj, Items, nil, cons, Fields, end, field, get, get_or_null, has_key,
}
use noc_report.Composition.{Library}
use noc_report.DailyInput.{build_daily_report_input}
use noc_report.DailyInput.Exposure.{semantic, build_daily_report_input-semantic}
use noc_report.Document.Reading.{screenshot_from_dict}
use noc_report.LegacyReport.{section_screenshots, build_daily_report_document}
use noc_report.LegacyReport.Checks.{
  valid_find, valid_finds, valid_analysis, valid_section, valid_sections,
  validate_merged_daily_report,
}
use noc_report.LegacyReport.Assembly.{all_have_screenshots, build_daily_report_document_returns}

abbrev snapshot : Fields
snapshot = field "shift_timezone" (str "UTC") (
    field "incidents"
      (arr (
        cons
          (obj (
            field "id" (str "i1")
              (field "title" (str "CPU") (field "grafana_url" (str "http://g") end))))
          nil))
      end)

build_daily_report_input-semantic_example :
    build_daily_report_input (obj (semantic snapshot)) ≡ build_daily_report_input (obj snapshot)
build_daily_report_input-semantic_example = build_daily_report_input-semantic snapshot

abbrev lib : Library
lib = record {
  to_str = λ j. "t";
  to_int = λ j. some j;
  with_commas = λ j. some "1,000";
  digest = λ s. s;
  is_blank = λ s. str_eq s "";
  strip = λ s. s;
  before_z = λ s. none;
  is_zone = λ s. true;
  from_iso = λ s. none;
  day_in_zone = λ zone t. "";
  limit = 1;
}

abbrev found : Json
found = obj (
    field "label_en" (str "Errors") (
      field "label_zh" (str "Z")
        (field "detail_en" (str "d") (field "detail_zh" (str "z") (field "count" (num 1000) end)))))

abbrev analysis : Json
analysis = obj (
    field "summary_en" (str "s") (
      field "summary_zh" (str "z") (
        field "key_finds" (arr (cons found nil)) (
          field "secondary_finds" (arr nil) (
            field "likely_cause_en" (str "c") (
              field "likely_cause_zh" (str "z") (
                field "recommended_action_en" (str "a") (
                  field "recommended_action_zh" (str "z")
                    (field "severity_signal" (str "low") (field "confidence" (num 1) end))))))))))

abbrev sections : Items
sections =
    cons
      (obj (
        field "incident_display_id" (str "INC-1") (
          field "title" (str "CPU") (
            field "status" (str "OPEN") (
              field "analysis" analysis (
                field "screenshots"
                  (arr
                    (cons (obj (field "bucket" (str "b") (field "object_key" (str "k") end))) nil))
                  end))))))
      nil

abbrev result : Fields
result = field "title" (str "Daily") (
    field "overview_en" (str "e")
      (field "overview_zh" (str "z") (field "sections" (arr sections) end)))

checks_passed : validate_merged_daily_report lib.is_blank (λ s. false) result ≡ true
unfolding validate_merged_daily_report valid_sections valid_section valid_analysis valid_finds
    valid_find get has_key
checks_passed = refl

sections_listed : get_or_null "sections" result ≡ arr sections
unfolding get
sections_listed = refl

sections_named : all_have_screenshots sections ≡ true
unfolding section_screenshots screenshot_from_dict get
sections_named = refl

build_daily_report_document_returns_example :
    is_none (build_daily_report_document lib result) ≡ false
build_daily_report_document_returns_example =
    build_daily_report_document_returns lib (λ s. false) result sections (λ j h. refl) checks_passed
      sections_listed sections_named
