-- ===== src/Worker/Handling.antt =====
-- What `handle_message` (bridge/noc_bridge/worker.py) leaves with the broker.
use noc_report.Common.{
  ℕ, suc, String, ◌≡◌, fun_ext, ◌∙◌, refl, ◌⊎◌, inl, inr, Bool, false, Option, none, some, List,
  ◌∷◌, arith,
}
use noc_report.Json.{num, str, Fields, get, put, get-put}
use noc_report.Failures.{Exc}
use noc_report.Result.{Result, ok, err}
use noc_report.Job.{
  Job, Jobs, Disposition, ClaimResult, claimed, already_completed, lease_busy, not_claimable,
  bump_attempt, claim_job,
}
use noc_report.Job.Claim.{Refused, Open, Held, Told, Answer, claim_outcome}
use noc_report.Message.{strip_private-put}
use noc_report.Worker.Base.{Action, ack, nack, World, Settings, Outside}
use noc_report.Worker.Deliver.{run_claimed, dispatch, handle_message, claimed_token}
use noc_report.Worker.Settlement.{failure_action}
use noc_report.Worker.Delivery.{Ended, Left, run_claimed_broker}

-- There is nothing left to do for the job, or other processes made it free between the two statements
-- of a claim, of which the first saw a row that was not.
abbrev pub Settled : ℕ → Option Job → Option Job → Type 0
Settled now seen row = Ended row ⊎ (Refused now seen × Open now row)

module _ (now tag : ℕ) (seen : Option Job) (failure : Exc → Action) (before : List Action) where
  -- What a delivery leaves: an acknowledgement alone, where the job is settled; a rejection, where another worker holds it; or the
  -- message of a failure and then the acknowledgement. Where the handler raises there is no
  -- acknowledgement.
  abbrev pub Handled : Result (Unit {0}) → List Action → Option Job → Type 0
  Handled (ok _) after row =
      ((after ≡ ack tag ∷ before) × Settled now seen row)
      ⊎ ((after ≡ nack tag false ∷ before) × Held now row)
      ⊎ ((exc : Exc) × (after ≡ ack tag ∷ failure exc ∷ before))
  Handled (err _) after row = (after ≡ before) ⊎ ((exc : Exc) × (after ≡ failure exc ∷ before))

  Left-Handled :
      (r : Result (Unit {0})) (after : List Action) (row : Option Job)
      → Left tag failure before r after row
      → Handled r after row
  Left-Handled (ok _) after row (inl h) = inl (h.0, inl h.1)
  Left-Handled (ok _) after row (inr h) = inr (inr h)
  Left-Handled (err _) after row h = h

-- After a claim that was refused for good the job is settled; a claim that succeeded hands out its
-- token.
abbrev ClaimLeaves : ℕ → ℕ → Option Job → Disposition → Option ℕ → Option Job → Type 0
ClaimLeaves now token seen already_completed handed row = Settled now seen row
ClaimLeaves now token seen not_claimable handed row = Settled now seen row
ClaimLeaves now token seen lease_busy handed row = Held now row
ClaimLeaves now token seen claimed handed row = handed ≡ some token

-- What is told of the row read last.
reading_leaves :
    (now token : ℕ) (seen row : Option Job) (d : Disposition) (handed : Option ℕ)
    → Refused now seen
    → Told now row d
    → ClaimLeaves now token seen d handed row
reading_leaves now token seen none d handed refused h = rw h (inl tt)
reading_leaves now token seen (some j) d handed refused (inl h) = rw h.1 (inl h.0)
reading_leaves now token seen (some j) d handed refused (inr (inl h)) = rw h.1 h.0
reading_leaves now token seen (some j) d handed refused (inr (inr h)) = rw h.1 (inr (refused, h.0))

claim_leaves :
    (now token : ℕ) (worker : String) (lease : ℕ) (between : Jobs → Jobs) (t : Jobs) (id : ℕ)
    (row : Option Job) (r : ClaimResult) (t' : Jobs)
    → Answer now token worker lease between t id row r t'
    → ClaimLeaves now token row r.disposition (claimed_token r) (t' id)
claim_leaves now token worker lease between t id row r t'
      (inl (j, j', e, free, taken, won, out, w)) =
    rw won (rw out taken.1)
claim_leaves now token worker lease between t id row r t' (inr (refused, same, told)) =
    rw same
      (reading_leaves now token row (between t id) r.disposition (claimed_token r) refused told)

module _ (o : Outside) (settings : Settings) (reconciled : Fields → Result Bool)
    (process : Fields → Result (Unit {0})) (tag : ℕ) (message : Fields) {job_id job_type : String}
    {id attempt : ℕ} (has_id : get "job_id" message ≡ some (str job_id))
    (parses : o.uuid job_id ≡ some id) (has_type : get "job_type" message ≡ some (str job_type))
    (has_attempt : get "attempt" message ≡ some (num attempt)) where
  -- The claim token that the worker adds does not show in what a failure leaves.
  failure_action-put :
      (token : ℕ)
      → failure_action settings attempt job_id job_type (put "_claim_token" (num token) message)
        ≡ failure_action settings attempt job_id job_type message
  failure_action-put token =
      fun_ext λ exc. rw (strip_private-put "_claim_token" (num token) message refl)

  owned_broker :
      (now : ℕ) (seen : Option Job) (token : ℕ) (w : World)
      → let owned = put "_claim_token" (num token) message in
        let (r, w') = run_claimed o settings reconciled process tag id token job_type owned w in
        Handled now tag seen
          (failure_action settings attempt job_id job_type message)
          w.broker
          r
          w'.broker
          (w'.jobs id)
  owned_broker now seen token w =
      let owned = put "_claim_token" (num token) message in
      let (r, w') = run_claimed o settings reconciled process tag id token job_type owned w in
      let kept = λ (k : String). get-put k "_claim_token" (num token) message in
      rw (← failure_action-put token) (
        Left-Handled now tag seen (failure_action settings attempt job_id job_type owned) w.broker r
          w'.broker (w'.jobs id)
          (run_claimed_broker o settings reconciled process tag owned (kept "job_id" ∙ has_id)
            parses (kept "job_type" ∙ has_type) (kept "attempt" ∙ has_attempt) token w))

  claimed_broker :
      (now : ℕ) (seen : Option Job) (token : ℕ) (w : World)
      → let (r, w') =
          dispatch o settings reconciled process claimed tag id (some token) job_type message w in
        Handled now tag seen
          (failure_action settings attempt job_id job_type message)
          w.broker
          r
          w'.broker
          (w'.jobs id)
  unfolding dispatch
  claimed_broker now seen token w = ground (
    arith,
    get-put "attempt" "_claim_token" (num token) message,
    owned_broker now seen token (record w {
      jobs = bump_attempt (o.others w.calls w.jobs) id attempt;
      calls = suc w.calls;
    }),
  )

  dispatch_broker :
      (now : ℕ) (seen : Option Job) (d : Disposition) (token : ℕ) (handed : Option ℕ) (w : World)
      → ClaimLeaves now token seen d handed (w.jobs id)
      → let (r, w') = dispatch o settings reconciled process d tag id handed job_type message w in
        Handled now tag seen
          (failure_action settings attempt job_id job_type message)
          w.broker
          r
          w'.broker
          (w'.jobs id)
  unfolding dispatch
  dispatch_broker now seen already_completed token handed w h = ground arith
  dispatch_broker now seen not_claimable token handed w h = ground arith
  dispatch_broker now seen lease_busy token handed w h = ground arith
  dispatch_broker now seen claimed token handed w h = rw h (claimed_broker now seen token w)

  -- Handling a message whose job, type and attempt can be read leaves the delivery in one of these
  -- ways. Acknowledged alone: then the job is completed, or there is no such job, or the claim's update
  -- saw a row that may not be taken and other processes made it one that may before the claim read it
  -- again. Rejected without requeueing: then another worker holds the job, with a
  -- lease that had not ended at the time of the claim. Acknowledged after the message of a failure: the next attempt in
  -- the retry queue where the failure may be retried and attempts are left, else the report in the
  -- dead-letter queue. Or the handler raises: then the delivery is not acknowledged, and at most such a
  -- message is out.
  pub handle_message_broker :
      (w : World)
      → let (r, w') = handle_message o settings reconciled process tag job_type message w in
        Handled
          (o.now w.calls)
          tag
          (o.others w.calls w.jobs id)
          (failure_action settings attempt job_id job_type message)
          w.broker
          r
          w'.broker
          (w'.jobs id)
  unfolding handle_message
  handle_message_broker w =
      let t = o.others w.calls w.jobs in
      let token = o.fresh_uuid w.calls in
      let now = o.now w.calls in
      let between = o.between w.calls in
      let (t', r) = claim_job now token settings.worker_id settings.lease_seconds between t id in
      let w' = record w { jobs = t'; calls = suc w.calls } in
      let answer = claim_outcome now token settings.worker_id settings.lease_seconds between t id in
      ground (
        arith,
        dispatch_broker now (t id) r.disposition token (claimed_token r) w' (
            claim_leaves now token settings.worker_id settings.lease_seconds between t id (t id) r
              t' answer),
      )
