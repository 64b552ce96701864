-- ===== src/Tests/OutboxRuns.antt =====
-- An outbox of three rows, of which the broker refuses one, and a request of a job.
use noc_report.Common.{
  ℕ, ◌+◌, ◌*◌, ◌≡◌, refl, true, false, not, ◌&&◌, Option, none, some, [], ◌∷◌, if◌then◌else◌, arith,
  ◌==◌, All, All₂, length, is_none,
}
use noc_report.Json.{nil, obj, end, get, has_key}
use noc_report.Result.{ok}
use noc_report.Topology.{is_job_type}
use noc_report.Job.{set_row}
use noc_report.Message.{
  validate_job_message, has_all, valid_properties, known_key, valid_property, valid_policy,
  valid_refs,
}
use noc_report.Outbox.{
  OutboxEvent, Events, Broker, is_in, dispatch_pending_events, purge_published_events, day,
}
use noc_report.Outbox.Selection.{ids, Distinct}
use noc_report.Outbox.Rows.{RowOutcome, Among}
use noc_report.Outbox.Dispatch.{dispatch_outcome}
use noc_report.Outbox.Progress.{dispatch_exhausts}
use noc_report.Outbox.Retention.{Purged, purge_effect}
use noc_report.Worker.Base.{document}
use noc_report.Worker.Deliver.{read_message}
use noc_report.Enqueue.{
  Request, Database, Ids, stamp, message_of, build_job_message, new_job, new_event, enqueue_job,
}
use noc_report.Enqueue.Accepted.{Enqueued, enqueue_job_accepts, enqueue_job_valid}
use noc_report.Tests.WorkerRuns.{outside}

abbrev event : ℕ → ℕ → Option ℕ → OutboxEvent
event id at published = record {
  id = id;
  job_id = id;
  routing_key = "job.log_triage";
  payload = end;
  created_at = at;
  published_at = published;
  attempt_count = 0;
  last_error = none;
}

abbrev events : Events
events = event 1 10 none ∷ event 2 5 none ∷ event 3 1 (some 2) ∷ []

-- Refuses the event 2.
abbrev broker : Broker
broker = record {
  refusal = λ round e. if e.id == 2 then some "nacked" else none;
  now = λ round. 100 + round;
  locked = λ round id. false;
}

events-Distinct : Distinct (ids events)
unfolding ids
events-Distinct = (refl, (refl, (refl, tt)))

dispatch_outcome_example :
    let s = dispatch_pending_events broker 50 events in
    All₂ (RowOutcome s) events s.events
    × Distinct (ids s.sent)
    × All (λ row. Among row events) s.sent
    × (s.published ≡ length s.sent)
dispatch_outcome_example = dispatch_outcome broker 50 events events-Distinct

dispatch_exhausts_example :
    let s = dispatch_pending_events broker 50 events in
    All (λ e. is_none e.published_at && not (is_in e.id s.failed_ids) ≡ false) s.events
dispatch_exhausts_example = dispatch_exhausts broker 50 events (λ round id. refl) (omega arith)

purge_effect_example :
    Purged 1 10
      (3 * day)
      (λ id. false)
      events
      (purge_published_events 1 10 (3 * day) (λ id. false) events)
purge_effect_example = purge_effect 1 10 (3 * day) (λ id. false) events events-Distinct

abbrev assigned : Ids
assigned = record {
  uuid_text = λ n. "id-7";
  uuid = outside.uuid;
  is_uuid = outside.is_uuid;
  job_id = 7;
  event_id = 9;
  correlation_id = 8;
  now = 20;
  job_refused = none;
  event_refused = none;
}

abbrev request : Request
request = record {
  job_type = "log_triage";
  incident_id = none;
  object_refs = nil;
  model = some "m";
  effort = none;
  skill_name = "log-triage-summary";
  skill_version = "1";
  skill_snapshot_id = 5;
  skill_hash = none;
  skill_execution_hash = none;
  ai_policy = none;
}

abbrev database : Database
database = record { jobs = λ id. none; outbox = [] }

enqueue_job_accepts_example :
    (db : Database) × (e : OutboxEvent) × (enqueue_job assigned request database ≡ ok db)
    × Enqueued assigned request database db e
    × (read_message outside (document e.payload) ≡ ok e.payload)
unfolding valid_refs
enqueue_job_accepts_example =
    enqueue_job_accepts assigned outside request database (refl, refl, refl, refl, refl, refl, refl)
      refl refl refl (λ n. refl) refl refl

abbrev enqueued_database : Database
enqueued_database = record {
  jobs = set_row database.jobs 7 new_job;
  outbox = new_event assigned request (message_of request (stamp assigned request) none) ∷ [];
}

request_enqueued : enqueue_job assigned request database ≡ ok enqueued_database
unfolding enqueue_job build_job_message validate_job_message has_all has_key valid_properties
    known_key valid_property valid_policy valid_refs get
request_enqueued = refl

enqueue_job_valid_example :
    (e : OutboxEvent) × Enqueued assigned request database enqueued_database e
    × (validate_job_message assigned.is_uuid (obj e.payload) ≡ true)
    × (is_job_type "log_triage" ≡ true)
enqueue_job_valid_example =
    enqueue_job_valid assigned request database enqueued_database request_enqueued
