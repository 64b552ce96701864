-- ===== src/Job/Ownership.antt =====
-- Ownership of a job by its claim token: one worker at a time, whatever the messages.
use noc_report.Common.{ℕ, ◌+◌, ◌*◌, ◌≤◌, ◌<◌, String, ◌≡◌, ◌≢◌, false, some, arith}
use noc_report.Job.{
  Jobs, claimed, lease_busy, claim_job, renew_job_lease, mark_completed, mark_failed, second,
}

module _ (now token : ℕ) (worker : String) (lease : ℕ) (between : Jobs → Jobs) (t : Jobs)
    (id : ℕ) where
  -- After a successful claim and until the end of its lease, every other claim of the job, between whose
  -- statements no other process writes its row, is told that it is busy and changes nothing itself.
  pub claim_excludes :
      (claim_job now token worker lease between t id).1.disposition ≡ claimed
      → (now' token' : ℕ) (worker' : String) (lease' : ℕ) (between' : Jobs → Jobs)
      → now' ≤ now + lease * second
      → let t' = (claim_job now token worker lease between t id).0 in
        between' t' id ≡ t' id
        → let (t'', r) = claim_job now' token' worker' lease' between' t' id in
          (r.disposition ≡ lease_busy) × (t'' ≡ between' t')
  unfolding claim_job
  claim_excludes won now' token' worker' lease' between' live alone = ground arith

  -- Once the lease has run out the next claim succeeds, and then the token of the first worker no
  -- longer renews, completes or fails the job: each of these reports failure and changes nothing.
  pub stale_token_powerless :
      (claim_job now token worker lease between t id).1.disposition ≡ claimed
      → (now' token' : ℕ) (worker' : String) (lease' : ℕ) (between' : Jobs → Jobs)
      → now + lease * second < now'
      → token ≢ token'
      → let t' = (claim_job now token worker lease between t id).0 in
        let (t'', r) = claim_job now' token' worker' lease' between' t' id in
        (r.disposition ≡ claimed)
        × ((at more : ℕ) → renew_job_lease at more t'' id token ≡ (t'', false))
        × ((at : ℕ) → mark_completed at t'' id (some token) ≡ (t'', false))
        × ((at : ℕ) (code message : String)
            → mark_failed at t'' id code message (some token) ≡ (t'', false))
  unfolding claim_job renew_job_lease mark_completed mark_failed
  stale_token_powerless won now' token' worker' lease' between' late fresh = ground arith
