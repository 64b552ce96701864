-- ===== src/Tests/WorkerRuns.antt =====
-- A worker with a working database and broker, and one valid message.
use Prim.Native.String.{◌++◌}
use text.Mathlib.Text.{◌==◌ as str_eq}
use noc_report.Common.{
  ◌+◌, ◌≡◌, refl, ◌⊎◌, Bool, true, false, none, some, [], ◌∷◌, if◌then◌else◌, arith,
}
use noc_report.Json.{null, num, str, arr, nil, obj, Fields, end, field, get, put, has_key}
use noc_report.Failures.{Exc, hermes_timeout, classify_failure, retryable_attr}
use noc_report.Result.{Result, ok, err}
use noc_report.Job.{Job, completed, failed, processing, set_row, processing}
use noc_report.Topology.{
  log_triage, daily_report, dlx_exchange, jobs_exchange, queue_names, declare_topology,
  retry_ttl_ms,
}
use noc_report.Topology.Routing.{
  bound, arguments, ttl, names_of, dead_letters_to, published_once, retry_cycle,
}
use noc_report.Message.{validate_job_message, has_all, valid_properties, known_key, valid_property}
use noc_report.Requeue.{Controls, requeued, requeue_dlq, reset_job}
use noc_report.Requeue.Reports.{Released, requeued_report_quarantined, requeue_dlq_effect}
use noc_report.Worker.Base.{Body, document, publish, ack, World, Settings, Outside}
use noc_report.Worker.Settle.{settle_failure, failure_report, builtin}
use noc_report.Worker.Deliver.{handle_message, handle_delivery}
use noc_report.Worker.Settlement.{
  failure_action, RetryScheduled, settle_failure_broker, settle_failure_resets,
}
use noc_report.Worker.Handling.{Handled, handle_message_broker}
use noc_report.Tests.JobRuns.{fresh_job, one_job}

abbrev pub outside : Outside
outside = record {
  now = λ n. 1000 + n;
  fresh_uuid = λ n. 100 + n;
  database = λ n. none;
  channel = λ n. none;
  others = λ n t. t;
  between = λ n t. t;
  loads = λ bytes. err (builtin "JSONDecodeError" true);
  uuid = λ s. if str_eq s "id-7" then some 7 else none;
  is_uuid = λ s. str_eq s "id-7";
  body_size = λ b. 10;
  body_base64 = λ b. "";
}

abbrev settings : Settings
settings = record { worker_id = "w"; lease_seconds = 60; max_attempts = 3 }

abbrev pub message : Fields
message = field "protocol_version" (num 1) (
    field "job_id" (str "id-7") (
      field "job_type" (str "log_triage") (
        field "incident_id" null (
          field "object_refs" (arr nil) (
            field "model" null (
              field "effort" null (
                field "skill_name" (str "log-triage-summary") (
                  field "skill_version" (str "1") (
                    field "skill_hash" null
                      (field "correlation_id" (str "c") (field "attempt" (num 1) end)))))))))))

message_is_valid : validate_job_message outside.is_uuid (obj message) ≡ true
unfolding validate_job_message has_all has_key valid_properties known_key valid_property
message_is_valid = refl

abbrev world : World
world = record {
  jobs = one_job;
  broker = [];
  metrics = record {
    jobs_processing = 0;
    jobs_completed = 0;
    jobs_failed = 0;
    retry_count = 0;
    schema_validation_failures = 0;
    provider_failures = 0;
  };
  calls = 0;
}

abbrev timeout : Exc
timeout = record { cls = hermes_timeout; message = [] }

abbrev reconciled : Fields → Result Bool
reconciled d = ok false

-- Fails with a time-out.
abbrev process : Fields → Result (Unit {0})
process d = err timeout

settle_failure_broker_example :
    let (r, w') = settle_failure outside settings 1 message timeout world in
    let left = failure_action settings 1 "id-7" "log_triage" message timeout in
    ((r ≡ ok tt) × (w'.broker ≡ ack 1 ∷ left ∷ []))
    ⊎ ((e : Exc) × (r ≡ err e) × ((w'.broker ≡ []) ⊎ (w'.broker ≡ left ∷ [])))
unfolding get
settle_failure_broker_example =
    settle_failure_broker outside settings 1 message timeout refl refl refl refl world

settle_failure_resets_example :
    let w = record world { jobs = set_row one_job 7 (record fresh_job { status = completed }) } in
    RetryScheduled 2 ((settle_failure outside settings 1 message timeout w).1.jobs 7)
unfolding get classify_failure retryable_attr
settle_failure_resets_example =
    settle_failure_resets outside settings 1 message timeout refl refl refl refl (λ n. refl)
      (λ n. refl) (λ n t. refl)
      (record world { jobs = set_row one_job 7 (record fresh_job { status = completed }) })
      (record fresh_job { status = completed }) refl refl (omega arith)

handle_message_broker_example :
    let (r, w') = handle_message outside settings reconciled process 1 "log_triage" message world in
    Handled 1000 1
      (one_job 7)
      (failure_action settings 1 "id-7" "log_triage" message)
      []
      r
      w'.broker
      (w'.jobs 7)
unfolding get
handle_message_broker_example =
    handle_message_broker outside settings reconciled process 1 message refl refl refl refl world

requeued_report_quarantined_example :
    let body = document (requeued (failure_report "id-7" "log_triage" 3 "E" "e")) in
    let (r, w') = handle_delivery outside settings reconciled process 1 "log_triage" body world in
    (r ≡ ok tt)
    × (w'.jobs ≡ one_job)
    × ((quarantine : Body) × (w'.broker
          ≡ ack 1
            ∷ publish dlx_exchange ((queue_names "log_triage").routing_key ++ ".dlq") quarantine
            ∷ []))
requeued_report_quarantined_example =
    requeued_report_quarantined "id-7" "log_triage" 3 "E" "e" outside settings reconciled process 1
      "log_triage" world (λ n. refl)

abbrev failed_job : Job
failed_job = record fresh_job { status = failed; attempt = 3 }

abbrev controls : Controls
controls = record {
  dlq = failure_report "id-7" "log_triage" 3 "E" "e" ∷ [];
  published = [];
  jobs = set_row one_job 7 failed_job;
}

requeue_dlq_effect_example :
    let payload = failure_report "id-7" "log_triage" 3 "E" "e" in
    let (n, c') = requeue_dlq outside.uuid none "log_triage" controls in
    (n ≡ some 1)
    × (c'.dlq ≡ [])
    × (c'.jobs ≡ set_row controls.jobs 7 (reset_job failed_job))
    × (c'.published
        ≡ publish jobs_exchange
            (queue_names "log_triage").routing_key
            (document (put "attempt" (num 1) payload))
          ∷ [])
    × ((((failed_job.status ≡ processing) ⊎ (failed_job.status ≡ completed))
          × (reset_job failed_job ≡ failed_job))
        ⊎ Released (reset_job failed_job))
    × ((refusal : Exc)
        → requeue_dlq outside.uuid (some refusal) "log_triage" controls ≡ (none, controls))
unfolding get
requeue_dlq_effect_example =
    requeue_dlq_effect outside.uuid "log_triage" controls
      (failure_report "id-7" "log_triage" 3 "E" "e") [] "id-7" 7 failed_job refl refl refl refl refl
      refl

published_once_example :
    (bound jobs_exchange (names_of log_triage).routing_key declare_topology
      ≡ (names_of log_triage).main ∷ [])
    × (bound dlx_exchange (names_of log_triage).routing_key declare_topology
        ≡ (names_of log_triage).retry ∷ [])
    × (bound dlx_exchange ((names_of log_triage).routing_key ++ ".dlq") declare_topology
        ≡ (names_of log_triage).dlq ∷ [])
published_once_example = published_once log_triage

retry_cycle_example :
    (dead_letters_to (names_of daily_report).main declare_topology
      ≡ (names_of daily_report).retry ∷ [])
    × (dead_letters_to (names_of daily_report).retry declare_topology
        ≡ (names_of daily_report).main ∷ [])
    × (ttl (arguments (names_of daily_report).retry declare_topology) ≡ some retry_ttl_ms)
    × (dead_letters_to (names_of daily_report).dlq declare_topology ≡ [])
retry_cycle_example = retry_cycle daily_report
