-- ===== src/Outbox/Retention.antt =====
-- What the clean-up deletes.
use noc_report.Common.{
  ℕ, zero, suc, ◌+◌, ◌-◌, ◌*◌, ◌≤◌, ◌<◌, ◌≡◌, refl, ◌⊎◌, inl, inr, Bool, true, false, ◌&&◌, ◌||◌,
  Option, none, some, List, [], ◌∷◌, arith, if◌then◌else◌, Bool-cases, All, All-imp, ◌==◌, ltb,
  length,
}
use noc_report.Outbox.{
  OutboxEvent, Events, is_in, is_expired, is_eligible, insert_sorted, select_expired, first_ids,
  delete_expired, no_ids, purge_published_events, day,
}
use mathlib.Core.Path.{subst, sym}
use native.Mathlib.Decide.{dec_le}
use noc_report.Outbox.Selection.{ids, Distinct}
use noc_report.Outbox.Rows.{Among}

pub count : (OutboxEvent → Bool) → Events → ℕ
count p [] = 0
count p (e ∷ es) = (if p e then 1 else 0) + count p es

count-absent : (i : ℕ) (es : Events) → is_in i (ids es) ≡ false → count (λ e. e.id == i) es ≡ 0
unfolding count ids
count-absent i [] h = refl
count-absent i (e ∷ es) h = ground (arith, count-absent i es)

count-at : (i : ℕ) (es : Events) → Distinct (ids es) → count (λ e. e.id == i) es ≤ 1
unfolding count ids
count-at i [] d = omega arith
count-at i (e ∷ es) d = ground (arith, count-at i es d.1, count-absent i es)

count-nothing : (es : Events) → count (λ e. false) es ≡ 0
unfolding count
count-nothing [] = refl
count-nothing (e ∷ es) = omega (arith, count-nothing es)

count-cons :
    (j : ℕ) (is : List ℕ) (es : Events)
    → count (λ e. is_in e.id (j ∷ is)) es
      ≤ count (λ e. e.id == j) es + count (λ e. is_in e.id is) es
unfolding count
count-cons j is [] = omega arith
count-cons j is (e ∷ es) = ground (arith, count-cons j is es)

-- No more rows than ids, where no two rows share one.
count-in :
    (is : List ℕ) (es : Events) → Distinct (ids es) → count (λ e. is_in e.id is) es ≤ length is
count-in [] es d = omega (arith, count-nothing es)
count-in (j ∷ is) es d = omega (arith, count-cons j is es, count-at j es d, count-in is es d)

first_ids_bound : (n : ℕ) (es : Events) → length (first_ids n es) ≤ n
unfolding first_ids
first_ids_bound zero es = omega arith
first_ids_bound (suc n) [] = omega arith
first_ids_bound (suc n) (e ∷ es) = ground (arith, first_ids_bound n es)

module _ (cutoff : ℕ) (locked : ℕ → Bool) where
  length-insert_sorted :
      (e : OutboxEvent) (es : Events) → length (insert_sorted e es) ≡ suc (length es)
  unfolding insert_sorted
  length-insert_sorted e [] = refl
  length-insert_sorted e (f ∷ fs) = ground (arith, length-insert_sorted e fs)

  length-select_expired :
      (es : Events)
      → length (select_expired cutoff locked es) ≡ count (is_eligible cutoff locked) es
  unfolding select_expired count
  length-select_expired [] = refl
  length-select_expired (e ∷ es) =
      ground
        (arith, length-select_expired es, length-insert_sorted e (select_expired cutoff locked es))

  in-insert_sorted :
      (i : ℕ) (e : OutboxEvent) (es : Events)
      → is_in i (ids (insert_sorted e es)) ≡ (e.id == i || is_in i (ids es))
  unfolding insert_sorted ids
  in-insert_sorted i e [] = refl
  in-insert_sorted i e (f ∷ fs) = ground (arith, in-insert_sorted i e fs)

  in-select_expired :
      (es : Events)
      → All
          (λ e.
            is_eligible cutoff locked e ≡ true
            → is_in e.id (ids (select_expired cutoff locked es)) ≡ true)
          es
  unfolding select_expired ids
  in-select_expired [] = tt
  in-select_expired (e ∷ es) = (
    λ h. ground (arith, in-insert_sorted e.id e (select_expired cutoff locked es)),
    All-imp _ _ es
        (λ x m h. ground (arith, m h, in-insert_sorted x.id e (select_expired cutoff locked es)))
        (in-select_expired es),
  )

  first_ids-ids : (n : ℕ) (es : Events) → length es ≤ n → first_ids n es ≡ ids es
  unfolding first_ids ids
  first_ids-ids zero [] h = refl
  first_ids-ids zero (e ∷ es) h = absurd (omega (arith, h))
  first_ids-ids (suc n) [] h = refl
  first_ids-ids (suc n) (e ∷ es) h = ground (arith, first_ids-ids n es)

module _ (cutoff : ℕ) (is : List ℕ) where
  deleted_bound :
      (es : Events)
      → let (kept, n) = delete_expired cutoff is es in
        (length es ≡ length kept + n) × (n ≤ count (λ e. is_in e.id is) es)
  unfolding delete_expired count
  deleted_bound [] = (refl, omega arith)
  deleted_bound (e ∷ es) = ground (arith, deleted_bound es)

  delete_step :
      (e : OutboxEvent) (es : Events)
      → ((is_expired cutoff e ≡ true)
          × ((delete_expired cutoff is (e ∷ es)).0 ≡ (delete_expired cutoff is es).0))
        ⊎ ((delete_expired cutoff is (e ∷ es)).0 ≡ e ∷ (delete_expired cutoff is es).0)
  unfolding delete_expired
  delete_step e es = ground arith

  unexpired_kept :
      (es : Events)
      → All (λ e. is_expired cutoff e ≡ false → Among e (delete_expired cutoff is es).0) es
  unexpired_kept [] = tt
  unexpired_kept (e ∷ es) = elim (delete_step e es) [
    | inl (old, gone) ↦
        subst (λ r. All (λ x. is_expired cutoff x ≡ false → Among x r) (e ∷ es)) (sym gone)
          (λ h. cc, unexpired_kept es)
    | inr stays ↦
        subst (λ r. All (λ x. is_expired cutoff x ≡ false → Among x r) (e ∷ es)) (sym stays)
          (λ h. inl refl, All-imp _ _ es (λ x m h. inr (m h)) (unexpired_kept es))
  ]

  kept_before : (es : Events) → All (λ e. Among e es) (delete_expired cutoff is es).0
  unfolding delete_expired
  kept_before [] = tt
  kept_before (e ∷ es) = elim (Bool-cases (is_in e.id is && is_expired cutoff e)) [
    | inl gone ↦
        rw gone (All-imp _ _ (delete_expired cutoff is es).0 (λ x m. inr m) (kept_before es))
    | inr stays ↦
        rw stays
          (inl refl, All-imp _ _ (delete_expired cutoff is es).0 (λ x m. inr m) (kept_before es))
  ]

  kept_spared :
      (P : OutboxEvent → Type 0) (es : Events)
      → All (λ e. is_in e.id is && is_expired cutoff e ≡ false → P e) es
      → All P (delete_expired cutoff is es).0
  unfolding delete_expired
  kept_spared P [] h = tt
  kept_spared P (e ∷ es) h = elim (Bool-cases (is_in e.id is && is_expired cutoff e)) [
    | inl gone ↦ rw gone (kept_spared P es h.1)
    | inr stays ↦ rw stays (h.0 stays, kept_spared P es h.1)
  ]

deletes_nothing : (cutoff : ℕ) (es : Events) → delete_expired cutoff [] es ≡ (es, 0)
unfolding delete_expired
deletes_nothing cutoff [] = refl
deletes_nothing cutoff (e ∷ es) = rw (deletes_nothing cutoff es) refl

module _ (retention_days batch_size now : ℕ) (locked : ℕ → Bool) (events : Events) where
  abbrev cutoff : ℕ
  cutoff = now - retention_days * day

  -- Pending, or not published before the cutoff.
  abbrev pub Spared : Option ℕ → Type 0
  Spared none = Unit
  Spared (some t) = cutoff ≤ t

  Spared-is_expired : (e : OutboxEvent) → Spared e.published_at → is_expired cutoff e ≡ false
  Spared-is_expired e h = ground arith

  -- What the clean-up leaves: it refuses a batch of no rows, and else each row either stays or counts
  -- as deleted, at most a batch of them.
  abbrev pub Purged : Option (Events × ℕ) → Type 0
  Purged none = batch_size ≡ 0
  Purged (some (kept, n)) =
      (1 ≤ batch_size)
      × (length events ≡ length kept + n)
      × (n ≤ batch_size)
      × All (λ e. Among e events) kept
      × All (λ e. Spared e.published_at → Among e kept) events
      × ((batch_size < count (is_eligible cutoff locked) events)
          ⊎ All (λ e. is_eligible cutoff locked e ≡ false) kept)

  none_eligible :
      length (select_expired cutoff locked events) ≤ batch_size
      → let is = first_ids batch_size (select_expired cutoff locked events) in
        All (λ e. is_eligible cutoff locked e ≡ false) (delete_expired cutoff is events).0
  none_eligible fits =
      let rows = select_expired cutoff locked events in
      rw (first_ids-ids cutoff locked batch_size rows fits) (
        kept_spared cutoff (ids rows) _ events (
          All-imp _ _ events (λ x m h. ground (arith, m)) (in-select_expired cutoff locked events)))

  deleted_Purged :
      Distinct (ids events)
      → 1 ≤ batch_size
      → Purged (
          some (
            delete_expired cutoff
              (first_ids batch_size (select_expired cutoff locked events))
              events))
  deleted_Purged d positive =
      let is = first_ids batch_size (select_expired cutoff locked events) in
      let (sizes, bound) = deleted_bound cutoff is events in
      (
        positive,
        sizes,
        omega (
          arith,
          bound,
          count-in is events d,
          first_ids_bound batch_size (select_expired cutoff locked events),
        ),
        kept_before cutoff is events,
        All-imp _ _ events (λ e m h. m (Spared-is_expired e h)) (unexpired_kept cutoff is events),
        elim (dec_le (count (is_eligible cutoff locked) events) batch_size) [
          | yes fits ↦ inr (none_eligible (rw (length-select_expired cutoff locked events) fits))
          | no more ↦ inl (omega (arith, more))
        ],
      )

  -- The early return deletes what the statement would.
  early_return :
      (is : List ℕ)
      → (if no_ids is then some (events, 0) else some (delete_expired cutoff is events))
        ≡ some (delete_expired cutoff is events)
  early_return [] = rw (deletes_nothing cutoff events) refl
  early_return (i ∷ is) = refl

  -- A clean-up with a batch size of zero raises. Any other deletes from a table of distinct ids at most a
  -- batch of rows, and only rows that were published before the cutoff: all others, the pending ones
  -- among them, stay, and what stays was there before. Where no more rows are eligible than the batch
  -- holds, none of them is left; rows that another process has locked are not eligible.
  pub purge_effect :
      Distinct (ids events)
      → Purged (purge_published_events retention_days batch_size now locked events)
  unfolding purge_published_events
  purge_effect d = elim (Bool-cases (ltb batch_size 1)) [
    | inl small ↦ rw small (ground arith)
    | inr positive ↦ rw positive (
        rw (early_return (first_ids batch_size (select_expired cutoff locked events)))
          (deleted_Purged d (ground arith)))
  ]
