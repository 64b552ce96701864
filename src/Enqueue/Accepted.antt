-- ===== src/Enqueue/Accepted.antt =====
-- What a job that was enqueued carries to the worker.
use Prim.Native.String.{◌++◌ as string_append}
use text.Mathlib.TextEquality.{eq_iff}
use text.Mathlib.Text.{◌==◌ as str_eq}
use noc_report.Common.{
  ℕ, String, ◌≡◌, refl, ◌⊎◌, inl, inr, Bool, true, false, not, Option, none, some, [], ◌∷◌, ◌++◌,
  arith,
}
use noc_report.Json.{num, str, arr, obj, Fields, get, has_key}
use noc_report.Result.{ok}
use noc_report.Job.{Job, queued, set_row}
use noc_report.Outbox.{OutboxEvent}
use noc_report.Topology.{is_job_type, queue_names}
use noc_report.Message.{
  validate_job_message, has_all, required_keys, valid_properties, valid_property, known_key,
  valid_refs, valid_policy,
}
use noc_report.Worker.Base.{document, Outside}
use noc_report.Worker.Deliver.{read_message}
use noc_report.Enqueue.{
  Request, nullable, policy_of, Stamp, message_of, build_job_message, Database, Ids, new_job, stamp,
  incident_parses, new_event, enqueue_job,
}

-- A text that is given is not empty.
abbrev pub is_filled : Option String → Bool
is_filled none = true
is_filled (some s) = not (str_eq s "")

abbrev pub valid_given_policy : Option Fields → Bool
valid_given_policy none = true
valid_given_policy (some d) = valid_policy (obj d)

-- What the schema asks of a request.
abbrev pub IsWellFormed : Request → Type 0
IsWellFormed r =
    (is_job_type r.job_type ≡ true)
    × (valid_refs r.object_refs ≡ true)
    × (is_filled r.model ≡ true)
    × (is_filled r.effort ≡ true)
    × (str_eq r.skill_name "" ≡ false)
    × (str_eq r.skill_version "" ≡ false)
    × (valid_given_policy r.ai_policy ≡ true)

job_type_cases : (t : String) → is_job_type t ≡ true → (t ≡ "log_triage") ⊎ (t ≡ "daily_report")
job_type_cases t h = ground (arith, eq_iff t "log_triage", eq_iff t "daily_report")

named :
    (t : String)
    → is_job_type t ≡ true
    → (str_eq t "" ≡ false) × (str_eq (string_append t ".result") "" ≡ false)
named t h = elim (job_type_cases t h) [
  | inl triage ↦ rw triage (refl, refl)
  | inr report ↦ rw report (refl, refl)
]

policy_valid :
    (model effort : Option String) (policy : Option Fields)
    → is_filled model ≡ true
    → is_filled effort ≡ true
    → valid_given_policy policy ≡ true
    → valid_policy (obj (policy_of model effort policy)) ≡ true
policy_valid model effort (some d) m e h = h
policy_valid none none none m e h = unfold valid_policy get in refl
policy_valid (some s) none none m e h = unfold valid_policy get in ground arith
policy_valid none (some t) none m e h = unfold valid_policy get in ground arith
policy_valid (some s) (some t) none m e h = unfold valid_policy get in ground arith

module _ (is_uuid : String → Bool) (r : Request) (s : Stamp) where
  message_has_all : has_all is_uuid required_keys (message_of r s none) ≡ true
  unfolding has_all has_key
  message_has_all = refl

  message_properties :
      IsWellFormed r
      → is_uuid s.job_id ≡ true
      → str_eq s.correlation_id "" ≡ false
      → valid_properties is_uuid (message_of r s none) ≡ true
  unfolding valid_properties valid_property known_key
  message_properties w u co =
      let (known, refs, model, effort, name, version, policy) = w in
      ground (
        arith,
        named r.job_type known,
        policy_valid r.model r.effort r.ai_policy model effort policy,
      )

  message_valid :
      IsWellFormed r
      → is_uuid s.job_id ≡ true
      → str_eq s.correlation_id "" ≡ false
      → validate_job_message is_uuid (obj (message_of r s none)) ≡ true
  unfolding validate_job_message
  message_valid w u co = ground (arith, message_has_all, message_properties w u co)

-- A row of a waiting job at attempt 1 that no worker has touched.
abbrev pub Waiting : Job → Type 0
Waiting j =
    (j.status ≡ queued)
    × (j.attempt ≡ 1)
    × (j.claim_token ≡ none)
    × (j.lease_expires_at ≡ none)
    × (j.claimed_at ≡ none)
    × (j.worker_id ≡ none)
    × (j.started_at ≡ none)
    × (j.completed_at ≡ none)
    × (j.error_code ≡ none)
    × (j.error_message ≡ none)

-- A message for the job with the fields of the request.
abbrev pub Carries : Ids → Request → Fields → Type 0
Carries i r message =
    (get "job_id" message ≡ some (str (i.uuid_text i.job_id)))
    × (get "job_type" message ≡ some (str r.job_type))
    × (get "attempt" message ≡ some (num 1))
    × (get "incident_id" message ≡ some (nullable r.incident_id))
    × (get "object_refs" message ≡ some (arr r.object_refs))
    × (get "skill_name" message ≡ some (str r.skill_name))
    × (get "skill_version" message ≡ some (str r.skill_version))
    × (get "skill_snapshot_id" message ≡ some (str (i.uuid_text r.skill_snapshot_id)))
    × (get "ai_policy" message ≡ some (obj (policy_of r.model r.effort r.ai_policy)))
    × (get "correlation_id" message ≡ some (str (i.uuid_text i.correlation_id)))

-- The tables have gained a waiting job and, as the last row of the outbox, a pending event of that job
-- under the routing key of its type.
abbrev pub Enqueued : Ids → Request → Database → Database → OutboxEvent → Type 0
Enqueued i r db db' e =
    ((j : Job) × (db'.jobs ≡ set_row db.jobs i.job_id j) × Waiting j)
    × (db'.outbox ≡ db.outbox ++ (e ∷ []))
    × (e.id ≡ i.event_id)
    × (e.job_id ≡ i.job_id)
    × (e.routing_key ≡ (queue_names r.job_type).routing_key)
    × (e.created_at ≡ i.now)
    × (e.published_at ≡ none)
    × (e.attempt_count ≡ 0)
    × (e.last_error ≡ none)
    × Carries i r e.payload

abbrev enqueued : Ids → Request → Database → Database
enqueued i r db = record {
  jobs = set_row db.jobs i.job_id new_job;
  outbox = db.outbox ++ (new_event i r (message_of r (stamp i r) none) ∷ []);
}

enqueued-Enqueued :
    (i : Ids) (r : Request) (db : Database)
    → Enqueued i r db (enqueued i r db) (new_event i r (message_of r (stamp i r) none))
unfolding get
enqueued-Enqueued i r db = (
  (new_job, refl, (refl, refl, refl, refl, refl, refl, refl, refl, refl, refl)),
  refl,
  refl,
  refl,
  refl,
  refl,
  refl,
  refl,
  refl,
  (refl, refl, refl, refl, refl, refl, refl, refl, refl, refl),
)

enqueue_job_lem :
    (i : Ids) (r : Request) (db db' : Database)
    → enqueue_job i r db ≡ ok db'
    → (db' ≡ enqueued i r db)
      × (validate_job_message i.is_uuid (obj (message_of r (stamp i r) none)) ≡ true)
      × (is_job_type r.job_type ≡ true)
unfolding enqueue_job build_job_message
enqueue_job_lem i r db db' h = ground arith

-- A well-formed request, of an incident whose id can be read, is not refused where the database takes both
-- rows: the tables gain one waiting job at attempt 1 and, last in the outbox, one pending event of this
-- job under the routing key of its type. The worker reads the payload of the event back as the same
-- message, and finds in it the ids of the job and of its snapshot, the type, the references, the skill
-- and the policy that were asked for, and attempt 1.
pub enqueue_job_accepts :
    (i : Ids) (o : Outside) (r : Request) (db : Database)
    → IsWellFormed r
    → incident_parses i.uuid r.incident_id ≡ true
    → i.job_refused ≡ none
    → i.event_refused ≡ none
    → ((n : ℕ) → i.is_uuid (i.uuid_text n) ≡ true)
    → str_eq (i.uuid_text i.correlation_id) "" ≡ false
    → o.is_uuid ≡ i.is_uuid
    → (db' : Database) × (e : OutboxEvent) × (enqueue_job i r db ≡ ok db')
      × Enqueued i r db db' e
      × (read_message o (document e.payload) ≡ ok e.payload)
unfolding enqueue_job build_job_message read_message
enqueue_job_accepts i o r db w incident job event formatted filled same =
    let valid = message_valid i.is_uuid r (stamp i r) w (formatted i.job_id) filled in
    (
      enqueued i r db,
      new_event i r (message_of r (stamp i r) none),
      rw incident (rw job (rw w.0 (rw valid (rw event refl)))),
      enqueued-Enqueued i r db,
      rw same (rw valid refl),
    )

-- Whatever the request, where the call returns the tables have gained one waiting job and one pending
-- event of it under the routing key of its type, the type is known, and the payload of this event passes
-- the schema: no message that the worker would quarantine is ever stored.
pub enqueue_job_valid :
    (i : Ids) (r : Request) (db db' : Database)
    → enqueue_job i r db ≡ ok db'
    → (e : OutboxEvent) × Enqueued i r db db' e
      × (validate_job_message i.is_uuid (obj e.payload) ≡ true)
      × (is_job_type r.job_type ≡ true)
enqueue_job_valid i r db db' h =
    let (same, valid, known) = enqueue_job_lem i r db db' h in
    rw same (new_event i r (message_of r (stamp i r) none), enqueued-Enqueued i r db, valid, known)
