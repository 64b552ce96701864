-- ===== src/Worker/Settlement.antt =====
-- What a failed job leaves with the broker.
use Prim.Native.String.{◌++◌}
use noc_report.Common.{
  ℕ, ◌+◌, ◌<◌, String, ◌≡◌, ◌⊎◌, not, ◌&&◌, Option, none, some, ◌∷◌, ltb, if◌then◌else◌, arith,
}
use noc_report.Json.{num, str, Fields, get, put}
use noc_report.Failures.{Exc, retryable, classify_failure}
use noc_report.Result.{ok, err}
use noc_report.Job.{Job, Jobs, retrying, mark_failed, mark_retrying, bump_attempt}
use noc_report.Topology.{dlx_exchange, queue_names}
use noc_report.Message.{strip_private}
use noc_report.Worker.Base.{document, Action, publish, ack, World, Settings, Outside}
use noc_report.Worker.Settle.{error_detail, failure_report, settle_failure, is_terminal}

-- The message that a failed attempt leaves: the next attempt, or the report of the failure.
abbrev pub failure_action : Settings → ℕ → String → String → Fields → Exc → Action
failure_action settings attempt job_id job_type message exc =
    if not (is_terminal (classify_failure exc)) && ltb attempt settings.max_attempts
    then publish dlx_exchange (queue_names job_type).routing_key
        (document (put "attempt" (num (attempt + 1)) (strip_private message)))
    else publish dlx_exchange ((queue_names job_type).routing_key ++ ".dlq") (
        document (failure_report job_id job_type attempt (error_detail exc).0 (error_detail exc).1))

module _ (o : Outside) (settings : Settings) (tag : ℕ) (message : Fields) (exc : Exc)
    {job_id job_type : String} {id attempt : ℕ} (has_id : get "job_id" message ≡ some (str job_id))
    (parses : o.uuid job_id ≡ some id) (has_type : get "job_type" message ≡ some (str job_type))
    (has_attempt : get "attempt" message ≡ some (num attempt)) where
  -- Settling a failure of a message whose job, type and attempt can be read either returns, and then
  -- the broker has confirmed first the failure's message (the next attempt where the failure may be
  -- retried and attempts are left, else the report to the dead-letter queue) and then the
  -- acknowledgement; or it raises, and then the delivery is not acknowledged and at most that message
  -- is out.
  pub settle_failure_broker :
      (w : World)
      → let (r, w') = settle_failure o settings tag message exc w in
        let left = failure_action settings attempt job_id job_type message exc in
        ((r ≡ ok tt) × (w'.broker ≡ ack tag ∷ left ∷ w.broker))
        ⊎ ((e : Exc) × (r ≡ err e) × ((w'.broker ≡ w.broker) ⊎ (w'.broker ≡ left ∷ w.broker)))
  unfolding settle_failure
  settle_failure_broker w = ground arith

-- The row that a retry leaves: no owner, whatever the row was.
abbrev pub RetryScheduled : ℕ → Option Job → Type 0
RetryScheduled attempt none = ⊥
RetryScheduled attempt (some j) =
    (j.status ≡ retrying) × (j.claim_token ≡ none) × (j.attempt ≡ attempt)

module _ (o : Outside) (settings : Settings) (tag : ℕ) (message : Fields) (exc : Exc)
    {job_id job_type : String} {id attempt : ℕ} (has_id : get "job_id" message ≡ some (str job_id))
    (parses : o.uuid job_id ≡ some id) (has_type : get "job_type" message ≡ some (str job_type))
    (has_attempt : get "attempt" message ≡ some (num attempt))
    (database_up : (n : ℕ) → o.database n ≡ none) (channel_up : (n : ℕ) → o.channel n ≡ none)
    (alone : (n : ℕ) (t : Jobs) → o.others n t ≡ t) where
  -- Where every call succeeds and no other process writes, a worker that settles a failure which may
  -- be retried, with attempts left, sets the job to RETRYING with the next attempt and no owner. It
  -- does so whatever the row was, also where the job is completed or another worker holds it, since
  -- the reset does not check the claim token.
  pub settle_failure_resets :
      (w : World) (j : Job)
      → w.jobs id ≡ some j
      → classify_failure exc ≡ retryable
      → attempt < settings.max_attempts
      → RetryScheduled (attempt + 1) ((settle_failure o settings tag message exc w).1.jobs id)
  unfolding settle_failure mark_failed mark_retrying bump_attempt
  settle_failure_resets w j row again left = grind (arith, database_up, channel_up, alone)
