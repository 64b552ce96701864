-- ===== src/Worker/Base.antt =====
-- The state that a delivery changes, the calls that reach outside the process, and the settings.
use noc_report.Common.{ℕ, suc, String, Bool, Option, none, some, List, ◌∷◌}
use noc_report.Json.{Json, Fields}
use noc_report.Failures.{Exc}
use noc_report.Result.{Result, ok, err, Exec}
use noc_report.Job.{Jobs}

-- The bytes of a message: a JSON object that the program itself wrote, or bytes from elsewhere.
pub data Body : Type 0 where
  document : Fields → Body
  raw : List ℕ → Body

pub data Action : Type 0 where
  publish : String → String → Body → Action
  ack : ℕ → Action
  -- `basic_nack(tag, requeue=…)`.
  nack : ℕ → Bool → Action

-- The counters of `WorkerMetrics` that a delivery changes.
pub record Metrics : Type 0 where
  pub jobs_processing : ℕ
  pub jobs_completed : ℕ
  pub jobs_failed : ℕ
  pub retry_count : ℕ
  pub schema_validation_failures : ℕ
  pub provider_failures : ℕ

pub record World : Type 0 where
  pub jobs : Jobs
  -- What the broker has confirmed, newest first.
  pub broker : List Action
  pub metrics : Metrics
  -- How many calls have left the process.
  pub calls : ℕ

pub record Settings : Type 0 where
  pub worker_id : String
  pub lease_seconds : ℕ
  pub max_attempts : ℕ

-- Everything outside the process, each answer by the number of the call.
pub record Outside : Type 0 where
  pub now : ℕ → ℕ
  pub fresh_uuid : ℕ → ℕ
  -- A database or channel call that fails raises this, and changes nothing.
  pub database : ℕ → Option Exc
  pub channel : ℕ → Option Exc
  -- What other processes have committed to the job table before the call.
  pub others : ℕ → Jobs → Jobs
  -- What they commit between the two statements of a transaction that has locked nothing yet.
  pub between : ℕ → Jobs → Jobs
  -- `json.loads` and `uuid.UUID` on texts from elsewhere, jsonschema's `uuid` format.
  pub loads : List ℕ → Result Json
  pub uuid : String → Option ℕ
  pub is_uuid : String → Bool
  pub body_size : Body → ℕ
  pub body_base64 : Body → String

abbrev pub M : Type 0 → Type 0
M A = Exec World A

module _ (o : Outside) where
  abbrev transact : {A : Type 0} → Option Exc → (Jobs → Jobs × A) → M A
  transact (some e) f w = (err e, record w { calls = suc w.calls })
  transact none f w =
      let (jobs, a) = f (o.others w.calls w.jobs) in
      (ok a, record w { jobs = jobs; calls = suc w.calls })

  -- One transaction: what others committed comes first, then the statements at one clock reading.
  abbrev pub sql : {A : Type 0} → (ℕ → Jobs → Jobs × A) → M A
  sql f w = transact (o.database w.calls) (f (o.now w.calls)) w

  abbrev transmit : Option Exc → Action → M (Unit {0})
  transmit (some e) a w = (err e, record w { calls = suc w.calls })
  transmit none a w = (ok tt, record w { broker = a ∷ w.broker; calls = suc w.calls })

  -- A call on the channel, with publisher confirms on.
  abbrev pub send : Action → M (Unit {0})
  send a w = transmit (o.channel w.calls) a w

abbrev pub meter : (Metrics → Metrics) → M (Unit {0})
meter f w = (ok tt, record w { metrics = f w.metrics })

abbrev pub call_number : M ℕ
call_number w = (ok w.calls, w)
