-- ===== src/Job/Lifecycle.antt =====
-- Runs of the statements that check the claim token, by any workers in any order.
use noc_report.Common.{
  ℕ, ◌≤◌, suc, String, ◌≡◌, refl, ◌⊎◌, Bool, true, false, Option, none, some, List, [], ◌∷◌, ◌==◌,
  if◌then◌else◌, arith,
}
use noc_report.Job.{
  processing, completed, Job, Jobs, claim_job, renew_job_lease, mark_completed, mark_failed,
}

-- A statement of some worker, with the time, the job and the token that it gives.
pub data Event : Type 0 where
  claim : ℕ → ℕ → ℕ → String → ℕ → Event
  renew : ℕ → ℕ → ℕ → ℕ → Event
  complete : ℕ → ℕ → ℕ → Event
  fail : ℕ → ℕ → ℕ → String → String → Event

-- A claim that is refused writes nothing, so what others commit between its two statements are steps of
-- their own.
unfoldable pub step : Jobs → Event → Jobs
unfolding claim_job renew_job_lease mark_completed mark_failed
step t (claim now id token worker lease) = (claim_job now token worker lease (λ s. s) t id).0
step t (renew now id token lease) = (renew_job_lease now lease t id token).0
step t (complete now id token) = (mark_completed now t id (some token)).0
step t (fail now id token code message) = (mark_failed now t id code message (some token)).0

unfoldable pub run : Jobs → List Event → Jobs
unfolding step
run t [] = t
run t (e ∷ es) = run (step t e) es

-- Whether the event is a completion of the job that took effect.
abbrev completes : Jobs → ℕ → Event → Bool
completes t id (complete now k token) =
    if k == id then (mark_completed now t k (some token)).1 else false
completes t id _ = false

abbrev count_if : Bool → ℕ → ℕ
count_if true n = suc n
count_if false n = n

-- How many completions of the job took effect in a run.
unfoldable pub completions : Jobs → ℕ → List Event → ℕ
unfolding step
completions t id [] = 0
completions t id (e ∷ es) =
    let rest = completions (step t e) id es in count_if (completes t id e) rest

abbrev RowOk : Option Job → Type 0
RowOk none = Unit
RowOk (some j) = (j.claim_token ≡ none) ⊎ (j.status ≡ processing)

-- A claimed job is being processed.
abbrev pub WellFormed : Jobs → ℕ → Type 0
WellFormed t id = RowOk (t id)

abbrev pub IsDone : Option Job → Type 0
IsDone none = ⊥
IsDone (some j) = (j.status ≡ completed) × (j.claim_token ≡ none)

step-IsDone : (t : Jobs) (id : ℕ) (e : Event) → IsDone (t id) → step t e id ≡ t id
unfolding step
step-IsDone t id (claim now k token worker lease) d = ground arith
step-IsDone t id (renew now k token lease) d = ground arith
step-IsDone t id (complete now k token) d = ground arith
step-IsDone t id (fail now k token code message) d = ground arith

step-WellFormed : (t : Jobs) (id : ℕ) (e : Event) → WellFormed t id → WellFormed (step t e) id
unfolding step
step-WellFormed t id (claim now k token worker lease) h = ground arith
step-WellFormed t id (renew now k token lease) h = ground arith
step-WellFormed t id (complete now k token) h = ground arith
step-WellFormed t id (fail now k token code message) h = ground arith

-- A completed job that no worker holds keeps its row through any run of claims, renewals,
-- completions and failures, whoever issues them and at whatever times.
pub completed_stays : (t : Jobs) (id : ℕ) (es : List Event) → IsDone (t id) → run t es id ≡ t id
unfolding run
completed_stays t id [] d = refl
completed_stays t id (e ∷ es) d =
    let same = step-IsDone t id e d in cc (same, completed_stays (step t e) id es (ground arith))

complete_effective :
    (t : Jobs) (id : ℕ) (e : Event)
    → WellFormed t id
    → completes t id e ≡ true
    → IsDone (step t e id)
unfolding step
complete_effective t id (claim now k token worker lease) h c = cc
complete_effective t id (renew now k token lease) h c = cc
complete_effective t id (complete now k token) h c = ground arith
complete_effective t id (fail now k token code message) h c = cc

done_completes : (t : Jobs) (id : ℕ) (e : Event) → IsDone (t id) → completes t id e ≡ false
unfolding step
done_completes t id (claim now k token worker lease) d = refl
done_completes t id (renew now k token lease) d = refl
done_completes t id (complete now k token) d = ground arith
done_completes t id (fail now k token code message) d = refl

completions_of_done :
    (t : Jobs) (id : ℕ) (es : List Event) → IsDone (t id) → completions t id es ≡ 0
unfolding completions
completions_of_done t id [] d = refl
completions_of_done t id (e ∷ es) d = ground (
  arith,
  done_completes t id e d,
  completions_of_done (step t e) id es (let same = step-IsDone t id e d in ground arith),
)

-- However claims, renewals, completions and failures of workers interleave, from a table in which a
-- claimed job is being processed, at most one completion of a job takes effect.
pub completed_once :
    (t : Jobs) (id : ℕ) (es : List Event) → WellFormed t id → completions t id es ≤ 1
unfolding completions
completed_once t id [] h = omega arith
completed_once t id (e ∷ es) h = ground (
  arith,
  complete_effective t id e h,
  completed_once (step t e) id es (step-WellFormed t id e h),
  completions_of_done (step t e) id es,
)
