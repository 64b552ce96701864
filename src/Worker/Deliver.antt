-- ===== src/Worker/Deliver.antt =====
-- `handle_delivery` (bridge/noc_bridge/worker.py). The reconciliation of a stored artifact and
-- `process_message` are arguments: the first says whether a valid artifact exists, the second
-- returns when its output has passed validation.
use Prim.Native.String.{◌++◌}
use text.Mathlib.Text.{◌==◌ as str_eq, starts_with}
use noc_report.Common.{
  ℕ, ◌+◌, ◌-◌, String, Bool, true, false, not, Option, none, some, if◌then◌else◌,
}
use noc_report.Json.{Json, num, obj, Fields, put}
use noc_report.Failures.{Exc, job_lease, codes, error_code_attr, class_name}
use noc_report.Result.{Result, ok, err, pure, raise, lift, ◌>>=◌, ◌>>◌, try_except, try_finally}
use noc_report.Job.{
  Disposition, claimed, already_completed, lease_busy, not_claimable, ClaimResult, claim_job,
  mark_completed, bump_attempt,
}
use noc_report.Message.{validate_job_message, strip_private}
use noc_report.Worker.Base.{
  call_number, Body, document, raw, ack, nack, Metrics, Settings, Outside, M, sql, send, meter,
}
use noc_report.Worker.Settle.{
  text_of, parsed_uuid, attempt_of, builtin, send_to_dlq, send_raw_to_dlq, settle_failure,
}

abbrev lease_lost : String → Exc
lease_lost text = record { cls = job_lease; message = codes text }

-- `mark_completed` returned false.
abbrev require_lease : String → Bool → M (Unit {0})
require_lease text true = pure tt
require_lease text false = raise (lease_lost text)

abbrev pub claimed_token : ClaimResult → Option ℕ
claimed_token r = elim r.job [ none ↦ none | some j ↦ j.claim_token ]

abbrev is_invalid_output : Option String → Bool
is_invalid_output none = false
is_invalid_output (some code) = str_eq code "HERMES_INVALID_OUTPUT"

abbrev pub count_failure : Exc → Metrics → Metrics
count_failure exc m =
    let invalid = is_invalid_output (error_code_attr exc.cls) in
    if invalid
    then record m { schema_validation_failures = m.schema_validation_failures + 1 }
    else if starts_with (class_name exc.cls) "Hermes"
    then record m { provider_failures = m.provider_failures + 1 }
    else m

module _ (o : Outside) where
  abbrev loaded : Body → Result Json
  loaded (document d) = ok (obj d)
  loaded (raw bytes) = o.loads bytes

  abbrev accepted : Result Json → Result Fields
  accepted (ok (obj d)) =
      if validate_job_message o.is_uuid (obj d) then ok d else err (builtin "ValidationError" false)
  accepted (ok _) = err (builtin "ValidationError" false)
  accepted (err e) = err e

  -- `json.loads` and `_validate_job_message`.
  unfoldable pub read_message : Body → Result Fields
  read_message body = accepted (loaded body)

  unfoldable pub finish : ℕ → ℕ → ℕ → String → M (Unit {0})
  finish tag id token text = do
    done ← sql o (λ now t. mark_completed now t id (some token))
    require_lease text done
    send o (ack tag)
    meter (λ m. record m { jobs_completed = m.jobs_completed + 1 })

module _ (o : Outside) (settings : Settings) (reconciled : Fields → Result Bool)
    (process : Fields → Result (Unit {0})) where
  abbrev reconcile : String → Fields → Result Bool
  reconcile job_type message = if str_eq job_type "log_triage" then reconciled message else ok false

  -- The body of the `try` block.
  unfoldable pub execute : ℕ → ℕ → ℕ → String → Fields → M (Unit {0})
  execute tag id token job_type message = do
    stored ← lift (reconcile job_type message)
    if stored then finish o tag id token "job lease was lost during artifact reconciliation" else do
      lift (process (strip_private message))
      finish o tag id token "job lease was lost before completion"

  unfoldable pub run_claimed : ℕ → ℕ → ℕ → String → Fields → M (Unit {0})
  run_claimed tag id token job_type message = do
    meter (λ m. record m { jobs_processing = m.jobs_processing + 1 })
    try_finally
        (try_except (execute tag id token job_type message)
          (λ exc. do meter (count_failure exc); settle_failure o settings tag message exc))
        (λ w. record w {
          metrics = record (w.metrics) { jobs_processing = w.metrics.jobs_processing - 1 };
        })

  abbrev with_token : Option ℕ → (ℕ → M (Unit {0})) → M (Unit {0})
  with_token none k = raise (builtin "KeyError" false)
  with_token (some token) k = k token

  -- What follows `claim_job`, by its disposition.
  unfoldable pub dispatch : Disposition → ℕ → ℕ → Option ℕ → String → Fields → M (Unit {0})
  dispatch already_completed tag id token job_type message = send o (ack tag)
  dispatch not_claimable tag id token job_type message = send o (ack tag)
  dispatch lease_busy tag id token job_type message = send o (nack tag false)
  dispatch claimed tag id token job_type message = with_token token λ t. do
    let owned = put "_claim_token" (num t) message
    attempt ← attempt_of owned
    sql o (λ now jobs. (bump_attempt jobs id attempt, tt))
    run_claimed tag id t job_type owned

  unfoldable pub handle_message : ℕ → String → Fields → M (Unit {0})
  handle_message tag job_type message = do
    job_id ← text_of "job_id" message
    id ← parsed_uuid (o.uuid job_id)
    call ← call_number
    claim ← sql o (λ now t.
        claim_job now (o.fresh_uuid call) settings.worker_id settings.lease_seconds (o.between call)
          t id)
    dispatch claim.disposition tag id (claimed_token claim) job_type message

  unfoldable pub route : ℕ → String → Body → Result Fields → M (Unit {0})
  route tag expected body (err e) = do
    send_raw_to_dlq o expected body ("invalid job message: " ++ class_name e.cls)
    send o (ack tag)
  route tag expected body (ok message) = do
    job_type ← text_of "job_type" message
    if not (str_eq job_type expected)
        then (do send_to_dlq o expected message; send o (ack tag))
        else handle_message tag job_type message

  unfoldable pub handle_delivery : ℕ → String → Body → M (Unit {0})
  handle_delivery tag expected body = route tag expected body (read_message o body)
