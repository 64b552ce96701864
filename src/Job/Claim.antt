-- ===== src/Job/Claim.antt =====
-- `claim_job`: who gets a job, and what every other claimant is told.
use noc_report.Common.{
  ℕ, ◌+◌, ◌*◌, ◌≤◌, ◌<◌, String, ◌≡◌, refl, ◌⊎◌, inl, inr, Option, none, some, arith, Bool-cases,
}
use noc_report.Job.{
  queued, processing, completed, failed, retrying, Job, Jobs, set_row, Disposition, ClaimResult,
  claimed, already_completed, lease_busy, not_claimable, is_claimable, classify_unclaimed,
  claim_job, claim_found,
}

-- A job may be taken: it waits, or its worker let the lease run out.
abbrev pub Available : ℕ → Job → Type 0
Available now j =
    (j.status ≡ queued)
    ⊎ (j.status ≡ failed)
    ⊎ (j.status ≡ retrying)
    ⊎ ((j.status ≡ processing)
        × ((j.lease_expires_at ≡ none) ⊎ ((e : ℕ) × (j.lease_expires_at ≡ some e) × (e < now))))

-- Another worker holds the job.
abbrev pub Leased : ℕ → Job → Type 0
Leased now j = (j.status ≡ processing) × ((e : ℕ) × (j.lease_expires_at ≡ some e) × (now ≤ e))

-- The update takes no row: there is none, it is completed, or another worker holds it.
abbrev pub Refused : ℕ → Option Job → Type 0
Refused now none = Unit
Refused now (some j) = (j.status ≡ completed) ⊎ Leased now j

-- There is a row, and it may be taken.
abbrev pub Open : ℕ → Option Job → Type 0
Open now none = ⊥
Open now (some j) = Available now j

-- There is a row, and another worker holds it.
abbrev pub Held : ℕ → Option Job → Type 0
Held now none = ⊥
Held now (some j) = Leased now j

-- A row that is taken: the new owner with its lease, and nothing else changes.
abbrev pub Taken : ℕ → ℕ → String → ℕ → Job → Job → Type 0
Taken now token worker lease j j' =
    (j'.status ≡ processing)
    × (j'.claim_token ≡ some token)
    × (j'.lease_expires_at ≡ some (now + lease * 1000000))
    × (j'.worker_id ≡ some worker)
    × (j'.started_at ≡ some now)
    × (j'.claimed_at ≡ some now)
    × (j'.completed_at ≡ j.completed_at)
    × (j'.error_code ≡ j.error_code)
    × (j'.error_message ≡ j.error_message)
    × (j'.attempt ≡ j.attempt)

-- What a refused claimant is told of the row that it then reads.
abbrev pub Told : ℕ → Option Job → Disposition → Type 0
Told now none d = d ≡ not_claimable
Told now (some j) d =
    ((j.status ≡ completed) × (d ≡ already_completed))
    ⊎ (Leased now j × (d ≡ lease_busy))
    ⊎ (Available now j × (d ≡ not_claimable))

-- The two answers of a claim: the row is taken, or it is not and another row may be read.
abbrev pub Answer :
    ℕ → ℕ → String → ℕ → (Jobs → Jobs) → Jobs → ℕ → Option Job → ClaimResult → Jobs → Type 0
Answer now token worker lease between t id row r t' =
    ((j : Job) × (j' : Job) × (row ≡ some j)
      × Available now j
      × Taken now token worker lease j j'
      × (r.disposition ≡ claimed)
      × (r.job ≡ some j')
      × (t' ≡ set_row t id j'))
    ⊎ (Refused now row × (t' ≡ between t) × Told now (between t id) r.disposition)

told : (now : ℕ) (row : Option Job) → Told now row (classify_unclaimed now row).disposition
told now none = refl
told now (some j) = ground arith

module _ (now token : ℕ) (worker : String) (lease : ℕ) (between : Jobs → Jobs) (t : Jobs)
    (id : ℕ) where
  abbrev RowAnswer : Option Job → Type 0
  RowAnswer row =
      let (t', r) = claim_found now token worker lease between t id row in
      Answer now token worker lease between t id row r t'

  Answer-row : (row : Option Job) → RowAnswer row
  unfolding claim_job
  Answer-row none = inr (tt, refl, told now (between t id))
  Answer-row (some j) = elim (Bool-cases (is_claimable now j)) [
    | inl free ↦ rw free (
        inl (
          j,
          _,
          refl,
          ground (arith, free),
          (refl, refl, refl, refl, refl, refl, refl, refl, refl, refl),
          refl,
          refl,
          refl,
        ))
    | inr held ↦ rw held (inr (ground (arith, held), refl, told now (between t id)))
  ]

  -- A claim has one of two outcomes. Where the update sees a job that waits, failed or is to be retried,
  -- or one in processing whose lease is missing or ended before now, the job is claimed: its row has the
  -- new token and worker and a lease of the given seconds from now, every other column that is not a time
  -- of the claim is kept, and this row is handed out. Where the update sees no row, a completed job, or a
  -- lease that has not ended, the claim writes nothing, and the answer is that of the row read after what
  -- others commit in between: completed, busy, or, where there is none or it has become free,
  -- not claimable.
  pub claim_outcome :
      let (t', r) = claim_job now token worker lease between t id in
      Answer now token worker lease between t id (t id) r t'
  unfolding claim_job
  claim_outcome = Answer-row (t id)
