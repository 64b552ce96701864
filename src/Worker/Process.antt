-- ===== src/Worker/Process.antt =====
-- `process_message` and the processors of the two job types (bridge/noc_bridge/worker.py), with
-- `report_object_keys` (bridge/noc_bridge/daily_report.py). The state is what a job does that lasts: the calls of the provider and
-- the artifacts stored. The telemetry, the metrics and the metadata of the artifacts are left out.
pub mod Analysis
pub mod Report
pub mod Stored
use Prim.Native.String.{◌++◌}
use text.Mathlib.Text.{◌==◌ as str_eq}
use noc_report.Common.{
  ℕ, ◌+◌, suc, String, Bool, true, false, not, ◌&&◌, ◌||◌, Option, none, some, List, [], ◌∷◌,
  if◌then◌else◌,
}
use noc_report.Json.{Json, null, str, arr, obj, Items, nil, cons, Fields, get}
use noc_report.Failures.{
  ExcClass, Exc, worker_input, evidence_verification, evidence_integrity, skill_configuration,
  codes,
}
use noc_report.Result.{Result, ok, err, Exec, pure, raise, lift, ◌>>=◌, ◌>>◌}
use noc_report.Worker.Attempts.{Attempted, triage_output, daily_output}
use noc_report.Worker.Evidence.{LogRow, single_ref, incident_and_evidence}

pub record Progress : Type 0 where
  pub provider_calls : ℕ
  -- The keys of the artifacts stored, newest first.
  pub stored : List String

abbrev pub P : Type 0 → Type 0
P A = Exec Progress A

-- What the processors call: skills, downloads, preprocessing, the provider, the checks, the
-- renderer and the storage. `check_analysis` is `reconcile_result` and both validations of a log
-- analysis, `fallback` the same with the unquantified fallback and the compacted narrative,
-- `check_plan` both validations of a plan, `saved_plan` a stored plan that can be read.
pub record Services : Type 0 where
  pub incidents : String → Option Fields
  pub evidence_rows : List LogRow
  pub materialize : Fields → Result (Unit {0})
  pub download_log : LogRow → Result (List ℕ)
  pub decode_utf8 : List ℕ → Option String
  pub preprocess : String → Result Json
  pub analyze : Json → ℕ → Result Json
  pub check_analysis : Json → Json → Result Json
  pub fallback : Json → Json → Result Json
  pub download_snapshot : Fields → Result (List ℕ)
  pub loads : List ℕ → Option Json
  pub report_input : Json → Result Json
  pub check_plan : Json → Result (Unit {0})
  pub saved_plan : String → Option Json
  pub artifacts_exist : String → Bool
  pub compose_and_render : Json → Json → Result (Unit {0})
  -- By the number of artifacts stored before: the storage takes an artifact, or an error; and an error
  -- though the artifact is stored, where it cannot be read back or the answer is lost.
  pub upload_error : ℕ → String → Option Exc
  pub late_error : ℕ → String → Option Exc
  pub max_output_attempts : ℕ

abbrev failure : ExcClass → String → Exc
failure cls text = record { cls = cls; message = codes text }

abbrev pub has_text : String → Option Json → Bool
has_text s (some (str t)) = str_eq t s
has_text s _ = false

abbrev pub is_given : Option Json → Bool
is_given none = false
is_given (some null) = false
is_given (some _) = true

-- `message['job_id']`, which the schema requires.
abbrev pub job_id_of : Option Json → String
job_id_of (some (str s)) = s
job_id_of _ = ""

abbrev pub artifact : String → String → String
artifact job_id name = "jobs/" ++ job_id ++ "/" ++ name

abbrev pub report_key : String → String → String
report_key job_id name = "reports/" ++ job_id ++ "/" ++ name

-- The loop of attempts, whose calls are added to those before.
abbrev pub attempts : {A : Type 0} → Exec ℕ A → P A
attempts m s = let (r, calls) = m 0 in (r, record s { provider_calls = s.provider_calls + calls })

module _ (v : Services) where
  abbrev pub count_stored : List String → ℕ
  count_stored [] = 0
  count_stored (k ∷ ks) = suc (count_stored ks)

  abbrev put_artifact : String → Option Exc → Option Exc → P (Unit {0})
  put_artifact key (some e) late s = (err e, s)
  put_artifact key none (some e) s = (err e, record s { stored = key ∷ s.stored })
  put_artifact key none none s = (ok tt, record s { stored = key ∷ s.stored })

  abbrev pub upload : String → P (Unit {0})
  upload key s =
      let n = count_stored s.stored in
      put_artifact key (v.upload_error n key) (v.late_error n key) s

  abbrev decoded : Option String → P String
  decoded none = raise (failure evidence_verification "log evidence is not valid UTF-8")
  decoded (some text) = pure text

  -- From the verified log on.
  unfoldable pub analyse_log : String → LogRow → P Json
  analyse_log job_id log = do
    bytes ← lift (v.download_log log)
    text ← decoded (v.decode_utf8 bytes)
    statistics ← lift (v.preprocess text)
    done ← attempts (
        triage_output (v.analyze statistics) (v.check_analysis statistics) (v.fallback statistics)
          v.max_output_attempts)
    upload (artifact job_id "result.json")
    upload (artifact job_id "telemetry.json")
    pure done.output

  unfoldable pub process_log_triage : Fields → P Json
  unfolding analyse_log
  process_log_triage message =
      if not (has_text "log_triage" (get "job_type" message))
      then raise (failure worker_input "log triage processor received an unsupported job type")
      else if not (has_text "log-triage-summary" (get "skill_name" message))
      then raise (failure skill_configuration "unsupported analysis skill")
      else do
        verified ← lift (incident_and_evidence v.incidents v.evidence_rows message)
        lift (v.materialize message)
        analyse_log (job_id_of (get "job_id" message)) verified.1

  abbrev parsed : Option Json → P Json
  parsed none = raise (failure evidence_integrity "report snapshot is not valid JSON")
  parsed (some j) = pure j

  abbrev pub keep : Json → Result (Unit {0}) → Result Json
  keep plan (ok u) = ok plan
  keep plan (err e) = err e

  abbrev pub checked_plan : Json → Result Json
  checked_plan plan = keep plan (v.check_plan plan)

  -- A plan of an earlier attempt that passes the checks, or a new one, which is stored before it is
  -- used.
  unfoldable pub report_plan : String → Json → Option Json → P Json
  report_plan job_id input (some plan) = do lift (v.check_plan plan); pure plan
  report_plan job_id input none = do
    done ← attempts (daily_output (v.analyze input) checked_plan v.max_output_attempts)
    upload (artifact job_id "report-plan.json")
    upload (artifact job_id "report-telemetry.json")
    pure done.output

  -- A complete set of artifacts is kept; else all three are made again.
  unfoldable pub render_report : String → Json → Json → P (Unit {0})
  render_report job_id plan snapshot = if v.artifacts_exist job_id then pure tt else do
    lift (v.compose_and_render plan snapshot)
    upload (report_key job_id "report.docx")
    upload (report_key job_id "document.json")
    upload (report_key job_id "document.screenshots.json")

  abbrev pub daily_report_of : String → Fields → P Json
  daily_report_of job_id ref = do
    bytes ← lift (v.download_snapshot ref)
    snapshot ← parsed (v.loads bytes)
    input ← lift (v.report_input snapshot)
    plan ← report_plan job_id input (v.saved_plan job_id)
    render_report job_id plan snapshot
    pure plan

  abbrev with_snapshot : Fields → Option Fields → P Json
  with_snapshot message none =
      raise (failure worker_input "daily report requires one frozen report snapshot")
  with_snapshot message (some ref) = do
    lift (v.materialize message)
    daily_report_of (job_id_of (get "job_id" message)) ref

  unfoldable pub process_daily_report : Fields → P Json
  unfolding report_plan render_report
  process_daily_report message =
      if not (has_text "daily_report" (get "job_type" message))
      then raise (failure worker_input "daily report processor received an unsupported job type")
      else if not (has_text "daily-alert-report" (get "skill_name" message))
      then raise (failure skill_configuration "unsupported daily report skill")
      else if is_given (get "incident_id" message)
      then raise (failure worker_input "daily report requires one frozen report snapshot")
      else with_snapshot message (single_ref (get "object_refs" message))

  unfoldable pub process_message : Fields → P Json
  unfolding process_log_triage process_daily_report
  process_message message =
      if has_text "log_triage" (get "job_type" message)
      then process_log_triage message
      else if has_text "daily_report" (get "job_type" message)
      then process_daily_report message
      else raise (failure worker_input "unsupported job type")
