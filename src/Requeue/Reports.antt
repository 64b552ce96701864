-- ===== src/Requeue/Reports.antt =====
-- What becomes of a failure report that an operator requeues.
use Prim.Native.String.{◌++◌}
use text.Mathlib.Text.{◌==◌ as str_eq}
use noc_report.Common.{
  ℕ, suc, String, ◌≡◌, refl, ◌⊎◌, Bool, false, true, ◌∙◌, Option, none, some, List, ◌∷◌, arith,
}
use noc_report.Json.{str, obj, Fields, get, put, get-put, has_key, num}
use noc_report.Failures.{Exc}
use noc_report.Result.{Result, ok}
use noc_report.Job.{Job, queued, processing, completed, is_claimable, set_row}
use noc_report.Message.{validate_job_message, has_all}
use noc_report.Topology.{dlx_exchange, jobs_exchange, queue_names, is_job_type}
use noc_report.Worker.Base.{Body, document, publish, ack, World, Settings, Outside}
use noc_report.Worker.Deliver.{handle_delivery, read_message, route}
use noc_report.Worker.Settle.{failure_report, send_to_dlq, send_raw_to_dlq}
use noc_report.Requeue.{Controls, requeued, requeue_dlq, reset_job, requeue_one_dlq_message}

module _ (job_id job_type : String) (attempt : ℕ) (code detail : String) where
  report_invalid :
      (is_uuid : String → Bool)
      → validate_job_message is_uuid
          (obj (requeued (failure_report job_id job_type attempt code detail)))
        ≡ false
  unfolding validate_job_message has_all requeued put has_key
  report_invalid is_uuid = refl

  -- The report that the worker leaves in the dead-letter queue is no job message. Requeued by an
  -- operator, it comes back to the worker, which quarantines it in the dead-letter queue once more and
  -- acknowledges it, where the channel works, and does not touch the job table: the job does not run.
  pub requeued_report_quarantined :
      (o : Outside) (settings : Settings) (reconciled : Fields → Result Bool)
      (process : Fields → Result (Unit {0})) (tag : ℕ) (expected : String) (w : World)
      → ((n : ℕ) → o.channel n ≡ none)
      → let body = document (requeued (failure_report job_id job_type attempt code detail)) in
        let (r, w') = handle_delivery o settings reconciled process tag expected body w in
        (r ≡ ok tt)
        × (w'.jobs ≡ w.jobs)
        × ((quarantine : Body) × (w'.broker
              ≡ ack tag
                ∷ publish dlx_exchange ((queue_names expected).routing_key ++ ".dlq") quarantine
                ∷ w.broker))
  unfolding handle_delivery read_message route send_raw_to_dlq send_to_dlq
  requeued_report_quarantined o settings reconciled process tag expected w up =
      rw (report_invalid o.is_uuid)
        (rw (up w.calls) (rw (up (suc w.calls)) (refl, refl, (_, refl))))

-- The row waits with attempt 1, without error, lease or owner, and any worker may claim it.
abbrev pub Released : Job → Type 0
Released j =
    (j.status ≡ queued)
    × (j.attempt ≡ 1)
    × (j.error_code ≡ none)
    × (j.claim_token ≡ none)
    × (j.lease_expires_at ≡ none)
    × (j.worker_id ≡ none)
    × ((now : ℕ) → is_claimable now j ≡ true)

reset_job_outcome :
    (j : Job)
    → (((j.status ≡ processing) ⊎ (j.status ≡ completed)) × (reset_job j ≡ j))
      ⊎ Released (reset_job j)
unfolding reset_job is_claimable
reset_job_outcome j = ground arith

-- For a job type that is known and an oldest message that names a job, requeueing takes this message from
-- the queue, publishes it once with attempt 1 to the jobs exchange under its type's key, and resets the row
-- of the job that it names, and no other: a job that is being processed or is completed keeps its row,
-- and any other is released, so that a worker may claim it at any time. Where the broker refuses the
-- publication, the endpoint raises, and the queue and the table stay as they were.
pub requeue_dlq_effect :
    (uuid : String → Option ℕ) (job_type : String) (c : Controls) (payload : Fields)
    (rest : List Fields) (s : String) (id : ℕ) (j : Job)
    → is_job_type job_type ≡ true
    → str_eq s "" ≡ false
    → c.dlq ≡ payload ∷ rest
    → get "job_id" payload ≡ some (str s)
    → uuid s ≡ some id
    → c.jobs id ≡ some j
    → let (n, c') = requeue_dlq uuid none job_type c in
      (n ≡ some 1)
      × (c'.dlq ≡ rest)
      × (c'.jobs ≡ set_row c.jobs id (reset_job j))
      × (c'.published
          ≡ publish jobs_exchange
              (queue_names job_type).routing_key
              (document (put "attempt" (num 1) payload))
            ∷ c.published)
      × ((((j.status ≡ processing) ⊎ (j.status ≡ completed)) × (reset_job j ≡ j))
          ⊎ Released (reset_job j))
      × ((refusal : Exc) → requeue_dlq uuid (some refusal) job_type c ≡ (none, c))
unfolding requeue_one_dlq_message requeued requeue_dlq
requeue_dlq_effect uuid job_type c payload rest s id j known filled head named parses row =
    rw head (
      rw known (
        rw (get-put "job_id" "attempt" (num 1) payload ∙ named) (
          rw filled
            (rw parses (rw row (refl, refl, refl, refl, reset_job_outcome j, λ refusal. refl))))))
