-- ===== src/Worker/Safety.antt =====
-- What `handle_delivery` (bridge/noc_bridge/worker.py) leaves with the broker, on any bytes.
use Prim.Native.String.{◌++◌}
use text.Mathlib.Text.{◌==◌ as str_eq}
use noc_report.Common.{ℕ, String, ◌≡◌, ◌⊎◌, Bool, true, false, some, List, ◌∷◌, ltb}
use noc_report.Json.{bool, num, str, Fields, get}
use noc_report.Failures.{Exc}
use noc_report.Result.{Result, ok, err}
use noc_report.Job.{Job, Jobs}
use noc_report.Topology.{dlx_exchange, queue_names}
use noc_report.Worker.Base.{Body, document, Action, publish, ack, nack, World, Settings, Outside}
use noc_report.Worker.Deliver.{read_message}
use noc_report.Worker.Settlement.{failure_action}
use noc_report.Job.Claim.{Held}
use noc_report.Worker.Handling.{Settled}

module _ (o : Outside) (settings : Settings) (expected : String) (received : Body) where
  -- A message to the dead-letter queue of the worker's own job type.
  abbrev pub to_dlq : Fields → Action
  to_dlq d = publish dlx_exchange ((queue_names expected).routing_key ++ ".dlq") (document d)

  -- Bytes that are no valid message are quarantined: their size, and themselves in base64, cut off where
  -- there are more than 4096.
  abbrev pub Quarantined : Action → Type 0
  Quarantined a =
      (e : Exc) × (q : Fields) × (read_message o received ≡ err e)
      × (a ≡ to_dlq q)
      × (get "quarantine" q ≡ some (str "invalid_job_message"))
      × (get "body_size" q ≡ some (num (o.body_size received)))
      × (get "body_truncated" q ≡ some (bool (ltb 4096 (o.body_size received))))
      × (get "body_base64" q ≡ some (str (o.body_base64 received)))

  -- A valid message of another type is passed on as it is.
  abbrev pub Misrouted : Action → Type 0
  Misrouted a =
      (d : Fields) × (job_type : String) × (read_message o received ≡ ok d)
      × (get "job_type" d ≡ some (str job_type))
      × (str_eq job_type expected ≡ false)
      × (a ≡ to_dlq d)

  -- A valid message of the worker's type that failed: its next attempt, or the report of its failure.
  abbrev pub Failed : Action → Type 0
  Failed a =
      (d : Fields) × (job_id : String) × (attempt : ℕ) × (exc : Exc) × (read_message o received
        ≡ ok d)
      × (get "job_id" d ≡ some (str job_id))
      × (get "job_type" d ≡ some (str expected))
      × (get "attempt" d ≡ some (num attempt))
      × (a ≡ failure_action settings attempt job_id expected d exc)

  -- The messages that stand in for a delivery.
  abbrev pub Recorded : Action → Type 0
  Recorded a = Quarantined a ⊎ Misrouted a ⊎ Failed a

  module _ (tag : ℕ) (ended busy : Type 0) (before : List Action) where
    -- Acknowledged with nothing left to do; rejected while the job is busy, which sends it to the retry queue; or
    -- acknowledged after a message that stands in for it. Where the handler raises, not acknowledged.
    abbrev pub Kept : Result (Unit {0}) → List Action → Type 0
    Kept (ok _) after =
        ((after ≡ ack tag ∷ before) × ended)
        ⊎ ((after ≡ nack tag false ∷ before) × busy)
        ⊎ ((a : Action) × Recorded a × (after ≡ ack tag ∷ a ∷ before))
    Kept (err _) after = (after ≡ before) ⊎ ((a : Action) × Recorded a × (after ≡ a ∷ before))

module _ (o : Outside) (settings : Settings) (reconciled : Fields → Result Bool)
    (process : Fields → Result (Unit {0})) (tag : ℕ) (expected : String)
    (uuid_total : (s : String) → o.is_uuid s ≡ true → (id : ℕ) × (o.uuid s ≡ some id)) where
  -- The body is a valid message of this type, whose job has the property.
  abbrev pub OfJob : Body → (ℕ → Type 0) → Type 0
  OfJob body P =
      (d : Fields) × (s : String) × (id : ℕ) × (read_message o body ≡ ok d)
      × (get "job_type" d ≡ some (str expected))
      × (get "job_id" d ≡ some (str s))
      × (o.uuid s ≡ some id)
      × P id

  abbrev pub JobEnded : Body → World → Jobs → Type 0
  JobEnded body w jobs =
      OfJob body (λ id. Settled (o.now w.calls) (o.others w.calls w.jobs id) (jobs id))

  abbrev pub JobBusy : Body → World → Jobs → Type 0
  JobBusy body w jobs = OfJob body (λ id. Held (o.now w.calls) (jobs id))

  -- What a run leaves.
  abbrev pub Accounted : Body → World → Result (Unit {0}) × World → Type 0
  Accounted body w (r, w') =
      Kept o settings expected body tag (JobEnded body w w'.jobs) (JobBusy body w w'.jobs) w.broker
        r w'.broker
