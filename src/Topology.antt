-- ===== src/Topology.antt =====
-- bridge/noc_bridge/queue_topology.py and the topology of apps/api/app/core/queue.py, over the
-- constants of packages/contracts/job_protocol.json.
pub mod Routing
use Prim.Native.Char.{Char, code}
use Prim.Native.String.{◌++◌}
use text.Mathlib.Text.{◌==◌ as str_eq}
use noc_report.Common.{
  ℕ, String, Bool, true, false, ◌&&◌, Option, none, some, List, [], ◌∷◌, ◌==◌, if◌then◌else◌, any,
  ◌||◌,
}

-- `JOB_TYPES`.
pub data JobType : Type 0 where
  log_triage daily_report : JobType

abbrev pub job_type_name : JobType → String
job_type_name log_triage = "log_triage"
job_type_name daily_report = "daily_report"

abbrev pub job_types : List String
job_types = job_type_name log_triage ∷ job_type_name daily_report ∷ []

-- `job_type in JOB_TYPES`.
abbrev pub is_job_type : String → Bool
is_job_type s = any (str_eq s) job_types

abbrev pub jobs_exchange : String
jobs_exchange = "noc.jobs"

abbrev pub events_exchange : String
events_exchange = "noc.events"

abbrev pub dlx_exchange : String
dlx_exchange = "noc.dlx"

abbrev pub retry_ttl_ms : ℕ
retry_ttl_ms = 30000

-- `job_type.replace("_", "-")`.
abbrev dashed : Char → Char
dashed c = if code c == 95 then "-" else c

unfoldable pub slug : String → String
slug String.[] = String.[]
slug (String.◌∷◌ c s) = String.◌∷◌ (dashed c) (slug s)

pub record QueueNames : Type 0 where
  pub main : String
  pub retry : String
  pub dlq : String
  pub routing_key : String

unfoldable pub queue_names : String → QueueNames
unfolding slug
queue_names job_type = record {
  main = "noc.jobs." ++ slug job_type;
  retry = "noc.jobs." ++ slug job_type ++ ".retry";
  dlq = "noc.jobs." ++ slug job_type ++ ".dlq";
  routing_key = "job." ++ job_type;
}

pub data ExchangeKind : Type 0 where
  direct topic : ExchangeKind

-- The arguments of `queue_declare` that the program sets.
pub record QueueArguments : Type 0 where
  pub dead_letter : Option (String × String)
  pub message_ttl : Option ℕ

pub data Declaration : Type 0 where
  exchange : String → ExchangeKind → Declaration
  queue : String → QueueArguments → Declaration
  bind : String → String → String → Declaration

abbrev plain : QueueArguments
plain = record { dead_letter = none; message_ttl = none }

-- One round of the loop over `JOB_TYPES`.
unfoldable pub declare_job_type : String → List Declaration → List Declaration
unfolding queue_names
declare_job_type job_type rest =
    let names = queue_names job_type in
    queue names.main
      (record { dead_letter = some (dlx_exchange, names.routing_key); message_ttl = none })
    ∷ bind names.main jobs_exchange names.routing_key
    ∷ queue names.retry (record {
      dead_letter = some (jobs_exchange, names.routing_key);
      message_ttl = some retry_ttl_ms;
    })
    ∷ bind names.retry dlx_exchange names.routing_key
    ∷ queue names.dlq plain
    ∷ bind names.dlq dlx_exchange (names.routing_key ++ ".dlq")
    ∷ rest

-- The declarations that `declare_topology` makes, in order.
unfoldable pub declare_topology : List Declaration
unfolding declare_job_type
declare_topology =
    exchange jobs_exchange direct
    ∷ exchange events_exchange topic
    ∷ exchange dlx_exchange direct
    ∷ declare_job_type (job_type_name log_triage) (
        declare_job_type (job_type_name daily_report)
          (queue "noc.events.log" plain ∷ bind "noc.events.log" events_exchange "event.job.#" ∷ []))
