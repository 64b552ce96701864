-- ===== src/Requeue.antt =====
-- The controls of the dead-letter queue: `requeue_one_dlq_message` and `purge_dlq`
-- (apps/api/app/core/queue.py) and the endpoint `requeue_dlq` (apps/api/app/api/v1/routers/admin.py).
-- The audit row that the endpoint writes is left out.
pub mod Reports
use noc_report.Common.{
  ℕ, String, Bool, true, false, not, ◌||◌, Option, none, some, List, [], ◌∷◌, ◌++◌, ◌==◌, length,
  if◌then◌else◌,
}
use noc_report.Json.{
  Json, null, bool, num, neg, real, str, arr, obj, nil, cons, Fields, end, field, get, put,
  is_truthy,
}
use text.Mathlib.Text.{◌==◌ as str_eq}
use noc_report.Failures.{Exc}
use noc_report.Result.{Result, ok, err}
use noc_report.Job.{Job, Jobs, queued, failed, retrying, is_status, set_row}
use noc_report.Topology.{jobs_exchange, queue_names, is_job_type}
use noc_report.Worker.Base.{Body, document, Action, publish}

-- A dead-letter queue, oldest message first, and what the endpoint publishes and writes.
pub record Controls : Type 0 where
  pub dlq : List Fields
  pub published : List Action
  pub jobs : Jobs

-- `payload["attempt"] = 1`.
unfoldable pub requeued : Fields → Fields
requeued payload = put "attempt" (num 1) payload

-- Publish first, acknowledge after: the queue loses the message once the broker has the copy. Where the
-- publication raises, the message is not acknowledged and stays.
abbrev requeue_head :
    Option Exc → String → Controls → List Fields → Result (Option Fields) × Controls
requeue_head refusal job_type c [] = (ok none, c)
requeue_head (some e) job_type c (payload ∷ rest) = (err e, c)
requeue_head none job_type c (payload ∷ rest) =
    let copy =
      publish jobs_exchange (queue_names job_type).routing_key (document (requeued payload)) in
    (ok (some (requeued payload)), record c { dlq = rest; published = copy ∷ c.published })

unfoldable pub requeue_one_dlq_message :
    Option Exc → String → Controls → Result (Option Fields) × Controls
requeue_one_dlq_message refusal job_type c = requeue_head refusal job_type c c.dlq

unfoldable pub purge_dlq : Controls → ℕ × Controls
purge_dlq c = (length c.dlq, record c { dlq = [] })

-- The row that an operator's requeue leaves.
unfoldable pub reset_job : Job → Job
reset_job j =
    if is_status j.status failed || is_status j.status retrying || is_status j.status queued
    then record j {
      status = queued;
      attempt = 1;
      error_code = none;
      error_message = none;
      started_at = none;
      completed_at = none;
      claimed_at = none;
      claim_token = none;
      lease_expires_at = none;
      worker_id = none;
    }
    else j

abbrev reset_row : Jobs → ℕ → Option Job → Jobs
reset_row t id none = t
reset_row t id (some j) = set_row t id (reset_job j)

-- `uuid.UUID` raises on what is no text of a UUID, and no row is written.
abbrev reset_parsed : Jobs → Option ℕ → Option Jobs
reset_parsed t none = none
reset_parsed t (some id) = some (reset_row t id (t id))

abbrev reset_value : (String → Option ℕ) → Jobs → Json → Option Jobs
reset_value uuid t (str s) = reset_parsed t (uuid s)
reset_value uuid t _ = none

-- `payload.get("job_id")`, which is left alone where it is missing or empty.
abbrev reset_named : (String → Option ℕ) → Jobs → Option Json → Option Jobs
reset_named uuid t none = some t
reset_named uuid t (some j) = if is_truthy j then reset_value uuid t j else some t

abbrev written : Controls → Option Jobs → Option ℕ × Controls
written c none = (none, c)
written c (some t) = (some 1, record c { jobs = t })

abbrev reconcile : (String → Option ℕ) → Result (Option Fields) → Controls → Option ℕ × Controls
reconcile uuid (err e) c = (none, c)
reconcile uuid (ok none) c = (some 0, c)
reconcile uuid (ok (some payload)) c = written c (reset_named uuid c.jobs (get "job_id" payload))

-- The number of messages requeued (none where the endpoint raises), and the new state.
unfoldable pub requeue_dlq :
    (String → Option ℕ) → Option Exc → String → Controls → Option ℕ × Controls
unfolding requeue_one_dlq_message reset_job
requeue_dlq uuid refusal job_type c =
    let (payload, c') = requeue_one_dlq_message refusal job_type c in
    if is_job_type job_type then reconcile uuid payload c' else (none, c)
