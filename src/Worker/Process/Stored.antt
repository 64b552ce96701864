-- ===== src/Worker/Process/Stored.antt =====
-- What one upload of a processor leaves (bridge/noc_bridge/storage.py, upload_artifact and
-- upload_artifact_metadata).
use noc_report.Common.{String, ◌≡◌, refl, ◌⊎◌, inl, inr, ◌∷◌, Option-cases}
use noc_report.Failures.{Exc}
use noc_report.Result.{ok, err}
use noc_report.Worker.Process.{Progress, Services, upload, count_stored}

module _ (v : Services) where
  -- An upload stores the artifact and returns, or raises without or with it stored.
  pub upload_cases :
      (key : String) (s : Progress)
      → (upload v key s ≡ (ok tt, record s { stored = key ∷ s.stored }))
        ⊎ ((e : Exc) × (upload v key s ≡ (err e, s)))
        ⊎ ((e : Exc) × (upload v key s ≡ (err e, record s { stored = key ∷ s.stored })))
  upload_cases key s = elim (Option-cases (v.upload_error (count_stored v s.stored) key)) [
    | inr (e, down) ↦ inr (inl (e, rw down refl))
    | inl up ↦ elim (Option-cases (v.late_error (count_stored v s.stored) key)) [
      | inr (e, lost) ↦ inr (inr (e, rw up (rw lost refl)))
      | inl kept ↦ inl (rw up (rw kept refl))
    ]
  ]
