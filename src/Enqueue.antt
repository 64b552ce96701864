-- ===== src/Enqueue.antt =====
-- The creation of a job: `build_job_message` (apps/api/app/core/queue.py) and `enqueue_job`
-- (apps/api/app/jobs.py), which adds the row of the job and the event of the outbox to one session.
-- The texts of UUIDs and the check of their format are arguments.
pub mod Accepted
use Prim.Native.String.{◌++◌}
use text.Mathlib.Text.{◌==◌ as str_eq}
use noc_report.Common.{
  ℕ, String, Bool, true, false, not, ◌&&◌, ◌||◌, Option, none, some, List, [], ◌∷◌,
  ◌++◌ as list_append, any, if◌then◌else◌,
}
use noc_report.Json.{Json, null, num, str, arr, obj, Items, Fields, end, field}
use noc_report.Failures.{Exc}
use noc_report.Result.{Result, ok, err}
use noc_report.Job.{Job, Jobs, queued, set_row}
use noc_report.Topology.{is_job_type, queue_names}
use noc_report.Message.{validate_job_message}
use noc_report.Outbox.{OutboxEvent, Events}
use noc_report.Worker.Settle.{builtin}

-- What the caller of `enqueue_job` gives.
pub record Request : Type 0 where
  pub job_type : String
  pub incident_id : Option String
  pub object_refs : Items
  pub model : Option String
  pub effort : Option String
  pub skill_name : String
  pub skill_version : String
  pub skill_snapshot_id : ℕ
  pub skill_hash : Option String
  pub skill_execution_hash : Option String
  pub ai_policy : Option Fields

-- `None` is `null`.
abbrev pub nullable : Option String → Json
nullable none = null
nullable (some s) = str s

abbrev with_field : String → Option String → Fields → Fields
with_field k none d = d
with_field k (some s) d = field k (str s) d

-- `ai_policy`, or the model and the effort that are given.
abbrev pub policy_of : Option String → Option String → Option Fields → Fields
policy_of model effort (some policy) = policy
policy_of model effort none = with_field "model" model (with_field "effort" effort end)

-- `expected_output_type or f"{job_type}.result"`.
abbrev pub output_type : String → Option String → String
output_type job_type none = job_type ++ ".result"
output_type job_type (some s) = if str_eq s "" then job_type ++ ".result" else s

-- The texts of a job's id, of its snapshot's id and of its correlation id, and its attempt.
pub record Stamp : Type 0 where
  pub job_id : String
  pub snapshot_id : String
  pub correlation_id : String

abbrev pub message_of : Request → Stamp → Option String → Fields
message_of r s expected_output_type = field "protocol_version" (num 1) (
    field "job_id" (str s.job_id) (
      field "job_type" (str r.job_type) (
        field "incident_id" (nullable r.incident_id) (
          field "object_refs" (arr r.object_refs) (
            field "model" (nullable r.model) (
              field "effort" (nullable r.effort) (
                field "skill_name" (str r.skill_name) (
                  field "skill_version" (str r.skill_version) (
                    field "skill_hash" (nullable r.skill_hash) (
                      field "skill_execution_hash" (nullable r.skill_execution_hash) (
                        field "skill_snapshot_id" (str s.snapshot_id) (
                          field "expected_output_type"
                            (str (output_type r.job_type expected_output_type))
                            (field "ai_policy" (obj (policy_of r.model r.effort r.ai_policy)) (
                              field "correlation_id" (str s.correlation_id)
                                (field "attempt" (num 1) end)))))))))))))))

-- The message of a first attempt.
unfoldable pub build_job_message : (String → Bool) → Request → Stamp → Option String → Result Fields
build_job_message is_uuid r s expected_output_type =
    let message = message_of r s expected_output_type in
    if not (is_job_type r.job_type)
    then err (builtin "ValueError" true)
    else if validate_job_message is_uuid (obj message)
    then ok message
    else err (builtin "ValidationError" false)

-- The tables that the session writes.
pub record Database : Type 0 where
  pub jobs : Jobs
  pub outbox : Events

-- `str` and `UUID` of a UUID, jsonschema's format, the ids and the time that a flush assigns, and what
-- the two flushes raise where the database refuses a row.
pub record Ids : Type 0 where
  pub uuid_text : ℕ → String
  pub uuid : String → Option ℕ
  pub is_uuid : String → Bool
  pub job_id : ℕ
  pub event_id : ℕ
  pub correlation_id : ℕ
  pub now : ℕ
  pub job_refused : Option Exc
  pub event_refused : Option Exc

abbrev pub new_job : Job
new_job = record {
  status = queued;
  started_at = none;
  completed_at = none;
  claimed_at = none;
  claim_token = none;
  lease_expires_at = none;
  worker_id = none;
  error_code = none;
  error_message = none;
  attempt = 1;
}

abbrev pub stamp : Ids → Request → Stamp
stamp i r = record {
  job_id = i.uuid_text i.job_id;
  snapshot_id = i.uuid_text r.skill_snapshot_id;
  correlation_id = i.uuid_text i.correlation_id;
}

-- `uuid.UUID(incident_id) if incident_id else None` returns.
abbrev parses : Option ℕ → Bool
parses none = false
parses (some id) = true

abbrev pub incident_parses : (String → Option ℕ) → Option String → Bool
incident_parses uuid none = true
incident_parses uuid (some s) = str_eq s "" || parses (uuid s)

abbrev pub new_event : Ids → Request → Fields → OutboxEvent
new_event i r message = record {
  id = i.event_id;
  job_id = i.job_id;
  routing_key = (queue_names r.job_type).routing_key;
  payload = message;
  created_at = i.now;
  published_at = none;
  attempt_count = 0;
  last_error = none;
}

-- A flush writes its row or raises.
abbrev flush : Option Exc → Database → Result Database
flush none db = ok db
flush (some e) db = err e

abbrev add_event : Ids → Request → Database → Result Fields → Result Database
add_event i r db (err e) = err e
add_event i r db (ok message) =
    flush i.event_refused
      (record db { outbox = list_append db.outbox (new_event i r message ∷ []) })

abbrev after_job : Ids → Request → Result Fields → Result Database → Result Database
after_job i r message (err e) = err e
after_job i r message (ok db) = add_event i r db message

-- The tables as the caller's commit leaves them. Where it raises, the caller's session is rolled back.
unfoldable pub enqueue_job : Ids → Request → Database → Result Database
unfolding build_job_message
enqueue_job i r db =
    if incident_parses i.uuid r.incident_id
    then after_job i r (build_job_message i.is_uuid r (stamp i r) none)
        (flush i.job_refused (record db { jobs = set_row db.jobs i.job_id new_job }))
    else err (builtin "ValueError" true)
