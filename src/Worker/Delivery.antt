-- ===== src/Worker/Delivery.antt =====
-- What one delivery of a claimed job leaves with the broker and in the job table.
use noc_report.Common.{
  ℕ, ◌+◌, String, ◌≡◌, ◌⊎◌, inl, inr, Bool, Option, none, some, List, ◌∷◌, arith,
}
use noc_report.Json.{num, str, Fields, get}
use noc_report.Failures.{Exc}
use mathlib.Core.Path.{subst}
use noc_report.Result.{Result, ok, err, handled, ◌>>◌}
use noc_report.Job.{Job, completed, mark_completed}
use noc_report.Worker.Base.{Action, ack, World, Settings, Outside, meter}
use noc_report.Worker.Deliver.{finish, execute, run_claimed, count_failure}
use noc_report.Worker.Settle.{settle_failure}
use noc_report.Worker.Settlement.{failure_action, settle_failure_broker}

-- There is nothing left to do for the job.
abbrev pub Ended : Option Job → Type 0
Ended none = Unit
Ended (some j) = j.status ≡ completed

module _ (tag : ℕ) (failure : Exc → Action) (before : List Action) where
  -- What a claimed job leaves: its completion and the acknowledgement; or the message of a failure
  -- and then the acknowledgement; or, where the handler raises, no acknowledgement.
  abbrev pub Left : Result (Unit {0}) → List Action → Option Job → Type 0
  Left (ok _) after row =
      ((after ≡ ack tag ∷ before) × Ended row)
      ⊎ ((exc : Exc) × (after ≡ ack tag ∷ failure exc ∷ before))
  Left (err _) after row = (after ≡ before) ⊎ ((exc : Exc) × (after ≡ failure exc ∷ before))

module _ (o : Outside) (settings : Settings) (reconciled : Fields → Result Bool)
    (process : Fields → Result (Unit {0})) where
  abbrev Finished : ℕ → List Action → Result (Unit {0}) → List Action → Option Job → Type 0
  Finished tag before (ok _) after row = (after ≡ ack tag ∷ before) × Ended row
  Finished tag before (err _) after row = after ≡ before

  finish_broker :
      (tag id token : ℕ) (text : String) (w : World)
      → let (r, w') = finish o tag id token text w in Finished tag w.broker r w'.broker (w'.jobs id)
  unfolding finish mark_completed
  finish_broker tag id token text w = ground arith

  execute_broker :
      (tag id token : ℕ) (job_type : String) (message : Fields) (w : World)
      → let (r, w') = execute o settings reconciled process tag id token job_type message w in
        Finished tag w.broker r w'.broker (w'.jobs id)
  unfolding execute
  execute_broker tag id token job_type message w = ground (
    arith,
    finish_broker tag id token "job lease was lost during artifact reconciliation" w,
    finish_broker tag id token "job lease was lost before completion" w,
  )

module _ (o : Outside) (settings : Settings) (reconciled : Fields → Result Bool)
    (process : Fields → Result (Unit {0})) (tag : ℕ) (message : Fields) {job_id job_type : String}
    {id attempt : ℕ} (has_id : get "job_id" message ≡ some (str job_id))
    (parses : o.uuid job_id ≡ some id) (has_type : get "job_type" message ≡ some (str job_type))
    (has_attempt : get "attempt" message ≡ some (num attempt)) where
  settled_broker :
      (exc : Exc) (w : World)
      → let (r, w') = settle_failure o settings tag message exc w in
        Left tag
          (failure_action settings attempt job_id job_type message)
          w.broker
          r
          w'.broker
          (w'.jobs id)
  settled_broker exc w =
      elim (settle_failure_broker o settings tag message exc has_id parses has_type has_attempt w) [
        | inl h ↦ rw h.0 (inr (exc, h.1))
        | inr h ↦ rw h.1 (elim h.2 [ inl e ↦ inl e | inr e ↦ inr (exc, e) ])
      ]

  handled_broker :
      (before : List Action) (r : Result (Unit {0})) (w : World)
      → Finished o settings reconciled process tag before r w.broker (w.jobs id)
      → let (r', w') =
          handled r
            (λ exc. meter (count_failure exc) >> settle_failure o settings tag message exc)
            w in
        Left tag
          (failure_action settings attempt job_id job_type message)
          before
          r'
          w'.broker
          (w'.jobs id)
  handled_broker before (ok _) w h = inl h
  handled_broker before (err exc) w h =
      let w' = record w { metrics = count_failure exc w.metrics } in
      let (r, w'') = settle_failure o settings tag message exc w' in
      subst
        (λ b.
          Left tag (failure_action settings attempt job_id job_type message) b r w''.broker
            (w''.jobs id))
        h (settled_broker exc w')

  pub run_claimed_broker :
      (token : ℕ) (w : World)
      → let (r, w') = run_claimed o settings reconciled process tag id token job_type message w in
        Left tag
          (failure_action settings attempt job_id job_type message)
          w.broker
          r
          w'.broker
          (w'.jobs id)
  unfolding run_claimed
  run_claimed_broker token w =
      let started = record w {
        metrics = record (w.metrics) { jobs_processing = w.metrics.jobs_processing + 1 };
      } in
      let (r, w') = execute o settings reconciled process tag id token job_type message started in
      handled_broker w.broker r w'
        (execute_broker o settings reconciled process tag id token job_type message started)
