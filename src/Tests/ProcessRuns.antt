-- ===== src/Tests/ProcessRuns.antt =====
-- A log analysis and a daily report with services that answer.
use noc_report.Common.{ℕ, ◌==◌, ◌≤◌, ◌≡◌, refl, ◌⊎◌, false, none, some, [], ◌∷◌, if◌then◌else◌}
use noc_report.Json.{Json, null, str, num, arr, obj, nil, cons, Fields, end, field, get}
use noc_report.Failures.{Exc, output_validation}
use noc_report.Result.{Result, ok, err}
use noc_report.Worker.Attempts.{at_least_one, triage_output, daily_output}
use noc_report.Worker.Attempts.Outputs.{
  Analysed, Planned, triage_output_bounded, daily_output_bounded,
}
use noc_report.Table.{first_where}
use noc_report.Worker.Evidence.{LogRow, incident_and_evidence}
use noc_report.Worker.Evidence.Frozen.{IsNamed, incident_and_evidence_frozen}
use noc_report.Worker.Process.{Services, process_log_triage, process_daily_report}
use noc_report.Worker.Process.Analysis.{
  Done, Raised, Statistics, calls_on, process_log_triage_outcome,
}
use noc_report.Worker.Process.Report.{Reported, process_daily_report_outcome}

abbrev log : LogRow
log = record {
  id = 1;
  incident_id = "i";
  evidence_type = "LOG";
  lifecycle_state = "ACTIVE";
  bucket = "b";
  object_key = "k";
  sha256 = some "s";
  version_id = none;
  created_at = 0;
}

-- The first answer of the provider is refused by the checks.
abbrev answer : ℕ → Result Json
answer n = if n == 0 then ok null else ok (num n)

abbrev refusal : Exc
refusal = record { cls = output_validation; message = [] }

abbrev check : Json → Result Json
check null = err refusal
check j = ok j

abbrev services : Services
services = record {
  incidents = λ id. some end;
  evidence_rows = log ∷ [];
  materialize = λ m. ok tt;
  download_log = λ e. ok [];
  decode_utf8 = λ bytes. some "";
  preprocess = λ text. ok null;
  analyze = λ input. answer;
  check_analysis = λ statistics. check;
  fallback = λ statistics j. ok j;
  download_snapshot = λ ref. ok [];
  loads = λ bytes. some (obj end);
  report_input = λ j. ok j;
  check_plan = λ plan. ok tt;
  saved_plan = λ job. none;
  artifacts_exist = λ job. false;
  compose_and_render = λ plan snapshot. ok tt;
  upload_error = λ n key. none;
  late_error = λ n key. none;
  max_output_attempts = 2;
}

abbrev ref : Fields
ref = field "bucket" (str "b") (field "key" (str "k") (field "sha256" (str "s") end))

abbrev triage_message : Fields
triage_message = field "job_id" (str "7") (
    field "job_type" (str "log_triage") (
      field "skill_name" (str "log-triage-summary")
        (field "incident_id" (str "i") (field "object_refs" (arr (cons (obj ref) nil)) end))))

abbrev report_message : Fields
report_message = field "job_id" (str "7") (
    field "job_type" (str "daily_report") (
      field "skill_name" (str "daily-alert-report")
        (field "object_refs" (arr (cons (obj ref) nil)) end)))

triage_output_bounded_example :
    let (r, calls) = triage_output answer check check 2 0 in
    (1 ≤ calls) × (calls ≤ at_least_one 2) × Analysed answer check check calls r
triage_output_bounded_example = triage_output_bounded answer check check 2

daily_output_bounded_example :
    let (r, calls) = daily_output answer check 2 0 in
    (1 ≤ calls) × (calls ≤ at_least_one 2) × Planned answer check calls r
daily_output_bounded_example = daily_output_bounded answer check 2

incident_and_evidence_frozen_example :
    IsNamed services.incidents services.evidence_rows triage_message log
unfolding incident_and_evidence get first_where
incident_and_evidence_frozen_example =
    incident_and_evidence_frozen services.incidents services.evidence_rows triage_message end log
      refl

process_log_triage_outcome_example :
    let (r, s) =
      process_log_triage services triage_message (record { provider_calls = 0; stored = [] }) in
    ((s.provider_calls ≡ 0) × (s.stored ≡ []) × Raised r)
    ⊎ ((row : LogRow) × (statistics : Json) × IsNamed services.incidents services.evidence_rows
          triage_message row
        × Statistics services row statistics
        × (s.provider_calls ≡ calls_on services statistics)
        × (s.provider_calls ≤ at_least_one 2)
        × Done services "7" statistics r s.stored)
unfolding get
process_log_triage_outcome_example = process_log_triage_outcome services triage_message "7" refl

process_daily_report_outcome_example :
    let (r, s) =
      process_daily_report services report_message (record { provider_calls = 0; stored = [] }) in
    (s.provider_calls ≤ at_least_one 2)
    × ((services.saved_plan "7" ≡ none) ⊎ (s.provider_calls ≡ 0))
    × Reported services "7" r s.stored
unfolding get
process_daily_report_outcome_example = process_daily_report_outcome services report_message "7" refl
