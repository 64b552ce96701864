-- ===== src/Evidence/Uploads/Safety.antt =====
-- Which objects the sweep of abandoned uploads deletes.
use noc_report.Common.{
  ℕ, zero, suc, ◌+◌, ◌≤◌, ◌≡◌, refl, inl, inr, arith, true, false, ◌||◌, Option, none, some,
  is_none, List, [], All, Bool-cases, Option-cases,
}
use noc_report.Table.{first_where, first_where-satisfies, first_where-none}
use noc_report.Evidence.Uploads.{
  Naming, UploadSurroundings, UploadIntent, Cleanup, is_unsettled, sooner, holds_object, no_order,
  identity_is_valid, is_abandoned, clean_intent, delete_upload, settle_intent, refuse, refreshed,
  cleanup_rounds, sweep_abandoned_upload_intents,
}

is_none-none : {A : Type 0} (o : Option A) → is_none o ≡ true → o ≡ none
is_none-none none h = refl
is_none-none (some a) h = absurd (ground (arith, h))

module _ (n : Naming) (s : UploadSurroundings) where
  -- A deletion in a round in which no row of `evidence` has the object, for an intent that is open or
  -- expired, whose time is over, that has no evidence, and whose object is the one of its own id.
  abbrev pub Abandoned : ℕ × UploadIntent → Type 0
  Abandoned d =
      (is_unsettled d.1.state ≡ true)
      × (d.1.expires_at ≤ s.now)
      × (d.1.evidence_id ≡ none)
      × (identity_is_valid n s d.1 ≡ true)
      × All (λ e. holds_object d.1 e ≡ false) (s.evidence d.0)

  -- Every deletion was allowed, and no more intents are settled than rounds have passed.
  abbrev Sound : ℕ → Cleanup → Type 0
  Sound round w = All Abandoned w.deletions × (w.settled ≤ round)

  settle_intent-Sound :
      (round id : ℕ) (f : UploadIntent → UploadIntent) (w : Cleanup)
      → Sound round w
      → Sound (suc round) (settle_intent n s round id f w)
  settle_intent-Sound round id f w h = elim (Bool-cases (s.commit_fails round)) [
    | inl e ↦ rw e (h.0, omega (arith, h.1))
    | inr e ↦ rw e (h.0, omega (arith, h.1))
  ]

  refuse-Sound :
      (round : ℕ) (i : UploadIntent) (w : Cleanup)
      → Sound round w
      → Sound (suc round) (refuse n s round i w)
  refuse-Sound round i w h = elim (Bool-cases (s.commit_fails round)) [
    | inl e ↦ rw e (h.0, omega (arith, h.1))
    | inr e ↦ rw e (h.0, omega (arith, h.1))
  ]

  delete_upload-Sound :
      (round : ℕ) (i : UploadIntent) (w : Cleanup)
      → Abandoned (round, i)
      → Sound round w
      → Sound (suc round) (delete_upload n s round i w)
  delete_upload-Sound round i w a h =
      elim (Bool-cases (s.deletion_raises round i || s.commit_fails round)) [
        | inl e ↦ rw e ((a, h.0), omega (arith, h.1))
        | inr e ↦ rw e ((a, h.0), omega (arith, h.1))
      ]

  clean_intent-Sound :
      (round : ℕ) (i : UploadIntent) (w : Cleanup)
      → is_abandoned n s round w.skipped_ids i ≡ true
      → Sound round w
      → Sound (suc round) (clean_intent n s round i w)
  unfolding clean_intent
  clean_intent-Sound round i w due h =
      let rows = s.evidence round in
      let found = first_where no_order (holds_object i) rows in
      elim (Bool-cases (is_none i.evidence_id)) [
        | inr q ↦ rw q (settle_intent-Sound round i.id _ w h)
        | inl q ↦ elim (Bool-cases (identity_is_valid n s i)) [
          | inr f ↦ rw (q, f) (refuse-Sound round i w h)
          | inl f ↦ elim (Option-cases found) [
            | inr (e, g) ↦ rw (q, f, g) (settle_intent-Sound round i.id _ w h)
            | inl g ↦
                let free = first_where-none no_order (holds_object i) rows g in
                let a : Abandoned (round, i) =
                  (ground arith, ground arith, is_none-none i.evidence_id q, f, free) in
                rw (q, f, g) (delete_upload-Sound round i w a h)
          ]
        ]
      ]

  cleanup_rounds-Sound :
      (left round : ℕ) (w : Cleanup)
      → Sound round w
      → Sound (left + round) (cleanup_rounds n s left round w)
  unfolding cleanup_rounds
  cleanup_rounds-Sound zero round w h = (h.0, omega (arith, h.1))
  cleanup_rounds-Sound (suc left) round w h =
      let v = refreshed n s round w in
      let p = is_abandoned n s round v.skipped_ids in
      let step : suc left + round ≡ left + suc round = omega arith in
      elim (Option-cases (first_where sooner p v.intents)) [
        | inl e ↦ rw (cleanup_rounds, e) (h.0, omega (arith, h.1))
        | inr (i, e) ↦
            let due = first_where-satisfies sooner p v.intents i e in
            rw (cleanup_rounds, e, step)
              (cleanup_rounds-Sound left (suc round) (clean_intent n s round i v)
                (clean_intent-Sound round i v due h))
      ]

  -- Whatever others do to the intents and to the evidence between the rounds, and whether deletions and
  -- commits fail or not, the sweep deletes an object only for an intent that is open or expired, whose time is
  -- over, that has no evidence and whose object is the one of its own id, in a round in which no row of
  -- `evidence` has that object; and it settles at most as many intents as the limit.
  pub sweep_abandoned_upload_intents_safe :
      (limit : ℕ) (intents : List UploadIntent)
      → let w = sweep_abandoned_upload_intents n s limit intents in
        All Abandoned w.deletions × (w.settled ≤ limit)
  unfolding sweep_abandoned_upload_intents
  sweep_abandoned_upload_intents_safe limit intents =
      let start : Cleanup = record {
        intents = intents;
        skipped_ids = [];
        settled = 0;
        deletions = [];
      } in
      let h = cleanup_rounds-Sound limit 0 start (tt, omega arith) in (h.0, omega (arith, h.1))
