-- ===== src/Tests/JobRuns.antt =====
-- A table of one job, claimed by two workers in turn.
use noc_report.Common.{
  ℕ, ◌≤◌, ◌≡◌, refl, false, none, some, List, [], ◌∷◌, ◌==◌, if◌then◌else◌, arith, inl,
}
use noc_report.Job.{
  Job, Jobs, queued, completed, claimed, lease_busy, claim_job, renew_job_lease, mark_completed,
  mark_failed,
}
use noc_report.Job.Claim.{Answer, claim_outcome}
use noc_report.Job.Ownership.{claim_excludes, stale_token_powerless}
use noc_report.Job.Lifecycle.{
  Event, claim, complete, fail, run, completions, completed_stays, completed_once,
}

abbrev pub fresh_job : Job
fresh_job = record {
  status = queued;
  started_at = none;
  completed_at = none;
  claimed_at = none;
  claim_token = none;
  lease_expires_at = none;
  worker_id = none;
  error_code = none;
  error_message = none;
  attempt = 1;
}

abbrev pub one_job : Jobs
one_job id = if id == 7 then some fresh_job else none

claim_excludes_example :
    let t' = (claim_job 1000 11 "a" 60 (λ t. t) one_job 7).0 in
    let (t'', r) = claim_job 2000 12 "b" 60 (λ t. t) t' 7 in
    (r.disposition ≡ lease_busy) × (t'' ≡ t')
unfolding claim_job
claim_excludes_example =
    claim_excludes 1000 11 "a" 60 (λ t. t) one_job 7 refl 2000 12 "b" 60 (λ t. t) (omega arith) refl

stale_token_powerless_example :
    let t' = (claim_job 1000 11 "a" 60 (λ t. t) one_job 7).0 in
    let (t'', r) = claim_job 99000000 12 "b" 60 (λ t. t) t' 7 in
    (r.disposition ≡ claimed)
    × ((at more : ℕ) → renew_job_lease at more t'' 7 11 ≡ (t'', false))
    × ((at : ℕ) → mark_completed at t'' 7 (some 11) ≡ (t'', false))
    × ((at : ℕ) (code message : _) → mark_failed at t'' 7 code message (some 11) ≡ (t'', false))
unfolding claim_job
stale_token_powerless_example =
    stale_token_powerless 1000 11 "a" 60 (λ t. t) one_job 7 refl 99000000 12 "b" 60 (λ t. t)
      (omega arith) (omega arith)

abbrev race : List Event
race =
    claim 1000 7 11 "a" 60
    ∷ claim 99000000 7 12 "b" 60
    ∷ complete 99000001 7 12
    ∷ complete 99000002 7 11
    ∷ fail 99000003 7 11 "E" "late"
    ∷ []

race_completes_once : completions one_job 7 race ≡ 1
unfolding completions
race_completes_once = refl

completed_once_example : completions one_job 7 race ≤ 1
completed_once_example = completed_once one_job 7 race (inl refl)

abbrev done_table : Jobs
done_table id = if id == 7 then some (record fresh_job { status = completed }) else none

completed_stays_example : run done_table race 7 ≡ some (record fresh_job { status = completed })
completed_stays_example = completed_stays done_table 7 race (refl, refl)

claim_outcome_example :
    let (t', r) = claim_job 1000 11 "a" 60 (λ t. t) one_job 7 in
    Answer 1000 11 "a" 60 (λ t. t) one_job 7 (one_job 7) r t'
claim_outcome_example = claim_outcome 1000 11 "a" 60 (λ t. t) one_job 7
