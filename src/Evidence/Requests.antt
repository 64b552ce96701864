-- ===== src/Evidence/Requests.antt =====
-- The request of a purge.
use noc_report.Common.{
  ℕ, String, ◌≡◌, ◌≢◌, refl, ◌⊎◌, inl, inr, none, List, [], ◌∷◌, arith, Bool-cases,
}
use noc_report.Evidence.{
  Texts, Evidence, References, references_for, Request, planned, referenced, request_unreferenced,
  request_purge, plan_of, is_state, purge_pending, purged,
}
use noc_report.Evidence.Protection.{IsProtected, references_for-none, references_for-some}

module _ (t : Texts) (r : References) (now : ℕ) (e : Evidence) where
  -- The three answers: a plan for a row that is purged already; a refusal, which leaves the row; or a
  -- plan and the row pending, its time of deletion kept where it has one.
  abbrev pub Answer : Request × Evidence → Type 0
  Answer (planned plan, e') =
      (plan ≡ plan_of e)
      × (((e.lifecycle_state ≡ purged) × (e' ≡ e))
          ⊎ ((e.lifecycle_state ≢ purged)
              × (¬ IsProtected t r e.id)
              × (e'.lifecycle_state ≡ purge_pending)
              × (e'.deleted_at ≢ none)
              × (plan_of e' ≡ plan_of e)))
  Answer (referenced reasons, e') =
      (e.lifecycle_state ≢ purged) × IsProtected t r e.id × (reasons ≢ []) × (e' ≡ e)

  unreferenced_Answer :
      (rs : List String)
      → references_for t r e.id ≡ rs
      → e.lifecycle_state ≢ purged
      → Answer (request_unreferenced now e rs)
  unreferenced_Answer [] h live =
      (refl, inr (live, references_for-none t r e.id h, refl, (λ q. ground arith), refl))
  unreferenced_Answer (s ∷ ss) h live = (live, references_for-some t r e.id s ss h, (λ q. cc), refl)

  -- A request for a row that is purged already plans the same deletion again and changes nothing. For
  -- any other row it is refused, and changes nothing, exactly where an OCR run or an analysis run reads
  -- the evidence or an object inside a report snapshot names it. Else the row becomes a pending
  -- tombstone with a time of deletion, and the plan is for its exact bucket, key and version.
  pub request_purge_guarded : Answer (request_purge t r now e)
  unfolding request_purge
  request_purge_guarded = elim (Bool-cases (is_state e.lifecycle_state purged)) [
    | inl done ↦ rw done (refl, inl (ground arith, refl))
    | inr live ↦ rw live (unreferenced_Answer (references_for t r e.id) refl (λ q. ground arith))
  ]
