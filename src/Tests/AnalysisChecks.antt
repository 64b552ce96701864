-- ===== src/Tests/AnalysisChecks.antt =====
-- The checks of a log analysis on two findings, one of them unquantified.
use text.Mathlib.Text.{◌==◌ as str_eq}
use noc_report.Common.{◌≡◌, refl, ℕ, true, false, String, if◌then◌else◌}
use noc_report.Json.{Json, num, str, arr, obj, nil, cons, Fields, end, field, get, get_or_null}
use noc_report.Composition.Plan.{is_in, has_duplicates}
use noc_report.Validation.{Text, is_complete, valid_summary}
use noc_report.Validation.Finds.{
  texts_of, pattern_ids, agrees, valid_entries, valid_numbers, accepts, check_finding,
  check_findings, check_groups,
}
use noc_report.Validation.Language.{
  has_density, has_no_repetition, analysis_text, has_causal_evidence, validate_log_triage_result,
}
use noc_report.Validation.Consistent.{IsConsistent, validate_log_triage_result-IsConsistent}

-- Every text has two stops where a summary is meant and one elsewhere.
abbrev on_texts : Text
on_texts = record {
  len = λ s. 40;
  is_blank = λ s. str_eq s "";
  strip = λ s. s;
  without_closing = λ s. s;
  without_stops = λ s. s;
  ends_in_ellipsis = λ s. false;
  endings = λ s. if str_eq s "It fails. It works." then 2 else 1;
  ends_sentence = λ s. true;
  compact = λ s. s;
  occurs_in = λ s r. str_eq s r;
  trailing_incomplete = λ s. false;
  linking_evidence = λ s. false;
  shared_causation = λ s. false;
  speculative_causation = λ s. false;
  causation_negation = λ s. false;
  is_percentage = λ j. true;
  share = λ count total. num 50;
  is_near = λ p q. true;
}

abbrev finding : String → String → Fields → Json
finding id pattern rest = obj (
    field "id" (str id) (
      field "label_zh" (str "Disk") (
        field "label_en" (str "Disk") (
          field "detail_zh" (str id) (
            field "detail_en" (str id)
              (field "pattern_ids" (arr (cons (str pattern) nil)) rest))))))

abbrev analysis : Fields
analysis = field "total_entries" (num 4) (
    field "summary_zh" (str "It fails. It works.") (
      field "summary_en" (str "It fails. It works.") (
        field "key_finds"
          (arr (
            cons (finding "f1" "p1" (field "count" (num 2) (field "percentage" (num 50) end))) nil))
          (field "secondary_finds" (arr (cons (finding "f2" "unquantified" end) nil)) end))))

analysis_accepted : validate_log_triage_result on_texts analysis ≡ true
unfolding validate_log_triage_result check_groups check_findings check_finding accepts valid_numbers
    pattern_ids texts_of valid_entries valid_summary is_complete has_density has_no_repetition
    has_causal_evidence analysis_text is_in has_duplicates get agrees
analysis_accepted = refl

validate_log_triage_result-IsConsistent_example :
    (total : ℕ) × (get_or_null "total_entries" analysis ≡ num total)
    × IsConsistent on_texts total analysis
validate_log_triage_result-IsConsistent_example =
    validate_log_triage_result-IsConsistent on_texts analysis analysis_accepted
