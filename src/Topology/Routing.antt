-- ===== src/Topology/Routing.antt =====
-- Where a message goes through the declared bindings: by the publisher's exchange and routing key,
-- and by the dead-letter arguments of the queue that it leaves.
use Prim.Native.String.{◌++◌}
use text.Mathlib.Text.{◌==◌ as str_eq}
use noc_report.Common.{ℕ, String, ◌≡◌, refl, ◌&&◌, Option, none, some, List, [], ◌∷◌, if◌then◌else◌}
use noc_report.Topology.{
  JobType, log_triage, daily_report, job_type_name, jobs_exchange, dlx_exchange, retry_ttl_ms,
  QueueNames, queue_names, QueueArguments, Declaration, queue, bind, declare_topology,
}

-- The queues that a direct exchange has bound under a key.
pub bound : String → String → List Declaration → List String
bound x key [] = []
bound x key (bind q y k ∷ ds) =
    let rest = bound x key ds in if str_eq x y && str_eq key k then q ∷ rest else rest
bound x key (_ ∷ ds) = bound x key ds

-- The arguments that a queue was declared with.
pub arguments : String → List Declaration → Option QueueArguments
arguments q [] = none
arguments q (queue p a ∷ ds) = if str_eq q p then some a else arguments q ds
arguments q (_ ∷ ds) = arguments q ds

abbrev dead_letter_target : Option QueueArguments → Option (String × String)
dead_letter_target none = none
dead_letter_target (some a) = a.dead_letter

abbrev pub ttl : Option QueueArguments → Option ℕ
ttl none = none
ttl (some a) = a.message_ttl

abbrev target_queues : Option (String × String) → List Declaration → List String
target_queues none ds = []
target_queues (some (x, key)) ds = bound x key ds

-- Where a message goes that a queue rejects or lets expire.
pub dead_letters_to : String → List Declaration → List String
unfolding bound arguments
dead_letters_to q ds = target_queues (dead_letter_target (arguments q ds)) ds

abbrev pub names_of : JobType → QueueNames
names_of t = queue_names (job_type_name t)

-- A job published for its type reaches the main queue of that type and no other queue. A retry
-- published to the dead-letter exchange under the same key reaches the type's retry queue alone, and
-- under the key with the suffix ".dlq" its dead-letter queue alone.
pub published_once :
    (t : JobType)
    → (bound jobs_exchange (names_of t).routing_key declare_topology ≡ (names_of t).main ∷ [])
      × (bound dlx_exchange (names_of t).routing_key declare_topology ≡ (names_of t).retry ∷ [])
      × (bound dlx_exchange ((names_of t).routing_key ++ ".dlq") declare_topology
          ≡ (names_of t).dlq ∷ [])
unfolding bound declare_topology queue_names
published_once log_triage = (refl, refl, refl)
published_once daily_report = (refl, refl, refl)

-- A message that the worker rejects leaves the main queue of its type for the retry queue of that
-- type, waits there for the time-to-live of the protocol, and returns to the same main queue; a message in the
-- dead-letter queue stays there.
pub retry_cycle :
    (t : JobType)
    → (dead_letters_to (names_of t).main declare_topology ≡ (names_of t).retry ∷ [])
      × (dead_letters_to (names_of t).retry declare_topology ≡ (names_of t).main ∷ [])
      × (ttl (arguments (names_of t).retry declare_topology) ≡ some retry_ttl_ms)
      × (dead_letters_to (names_of t).dlq declare_topology ≡ [])
unfolding dead_letters_to declare_topology queue_names
retry_cycle log_triage = (refl, refl, refl, refl)
retry_cycle daily_report = (refl, refl, refl, refl)
