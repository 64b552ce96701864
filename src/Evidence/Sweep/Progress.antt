-- ===== src/Evidence/Sweep/Progress.antt =====
-- What a sweep gets done, and what stops it.
use noc_report.Common.{
  ℕ, zero, suc, ◌≤◌, ◌<◌, ◌≡◌, ◌≢◌, refl, ◌⊎◌, inl, inr, Bool, true, false, not, ◌&&◌, none, String,
  some, List, [], ◌∷◌, arith, Bool-cases, Option-cases, All, All-imp, ◌==◌, length,
}
use mathlib.Core.Path.{subst}
use noc_report.Table.{
  first_where, first_where-none, update_row-identity, count, count_selected, count_le-length,
}
use noc_report.Evidence.{
  Evidence, EvidencePurgePlan, Texts, references_for, is_state, purge_pending, purge_storage,
  plan_of,
}
use noc_report.Evidence.Protection.{IsProtected, references_for-some}
use noc_report.Evidence.Sweep.{
  Surroundings, Sweep, before, is_in, row_id, is_due, protect, purge_row, sweep_rounds,
  sweep_pending_purges,
}

module _ (t : Texts) (s : Surroundings) where
  -- The storage and the database work, and no other worker holds a row.
  abbrev pub Working : Type 0
  Working =
      ((round id : ℕ) → s.locked round id ≡ false)
      × ((round : ℕ) (plan : EvidencePurgePlan) → purge_storage (s.delete_object round plan) ≡ none)
      × ((round : ℕ) → s.commit_fails round ≡ false)

  module _ (works : Working) where
    abbrev due_now : ℕ → Sweep → Evidence → Bool
    due_now round w e = is_due t s round w.skipped_ids e

    fewer_due_after :
        (round : ℕ) (row : Evidence) (w : Sweep) (rs : List String)
        → first_where before (due_now round w) w.rows ≡ some row
        → let w' = protect t s round row w rs in
          count (due_now (suc round) w') w'.rows < count (due_now round w) w.rows
    fewer_due_after round row w (r ∷ rs) h = rw (update_row-identity row_id row.id w.rows) at (
        count_selected row_id before (due_now round w)
          (is_due t s (suc round) (row.id ∷ w.skipped_ids)) row (λ e. e)
          (λ e due. ground (arith, works.0 round e.id)) w.rows (λ e q. ground arith) h)
    fewer_due_after round row w [] h = rw (works.1 round (plan_of row)) (
        rw (works.2 round) (
          count_selected row_id before (due_now round w) (is_due t s (suc round) w.skipped_ids) row
            _ (λ e due. ground (arith, works.0 round e.id)) w.rows (λ e q. ground arith) h))

    fewer_due :
        (round : ℕ) (row : Evidence) (w : Sweep)
        → first_where before (due_now round w) w.rows ≡ some row
        → let w' = purge_row t s round row w in
          count (due_now (suc round) w') w'.rows < count (due_now round w) w.rows
    unfolding purge_row
    fewer_due round row w h =
        fewer_due_after round row w (references_for t (s.references round) row.id) h

    nothing_due :
        (round : ℕ) (w : Sweep)
        → first_where before (due_now round w) w.rows ≡ none
        → All
            (λ e.
              is_state e.lifecycle_state purge_pending && not (is_in e.id w.skipped_ids) ≡ false)
            w.rows
    nothing_due round w h =
        All-imp _ _ w.rows (λ e q. ground (arith, works.0 round e.id))
          (first_where-none before (due_now round w) w.rows h)

    no_count :
        (round : ℕ) (w : Sweep)
        → count (due_now round w) w.rows ≤ 0
        → first_where before (due_now round w) w.rows ≡ none
    no_count round w h = elim (Option-cases (first_where before (due_now round w) w.rows)) [
      | inl done ↦ done
      | inr (row, selected) ↦ absurd (omega (arith, fewer_due round row w selected, h))
    ]

    rounds_exhaust :
        (left round : ℕ) (w : Sweep)
        → count (due_now round w) w.rows ≤ left
        → let w' = sweep_rounds t s left round w in
          All
            (λ e.
              is_state e.lifecycle_state purge_pending && not (is_in e.id w'.skipped_ids) ≡ false)
            w'.rows
    unfolding sweep_rounds
    rounds_exhaust zero round w h = nothing_due round w (no_count round w h)
    rounds_exhaust (suc left) round w h =
        elim (Option-cases (first_where before (due_now round w) w.rows)) [
          | inl done ↦ rw (sweep_rounds, done) (nothing_due round w done)
          | inr (row, selected) ↦
              rw (sweep_rounds, selected)
                (rounds_exhaust left (suc round) (purge_row t s round row w)
                  (omega (arith, fewer_due round row w selected, h)))
        ]

  -- Something refers to the evidence in some round.
  abbrev pub KeptBack : ℕ → Type 0
  KeptBack id = (round : ℕ) × IsProtected t (s.references round) id

  skipped_row :
      (round : ℕ) (row : Evidence) (w : Sweep) (rs : List String)
      → references_for t (s.references round) row.id ≡ rs
      → All KeptBack w.skipped_ids
      → All KeptBack (protect t s round row w rs).skipped_ids
  skipped_row round row w (r ∷ rs) e h =
      ((round, references_for-some t (s.references round) row.id r rs e), h)
  skipped_row round row w [] e h =
      ground (arith, s.delete_object round (plan_of row), s.commit_fails round)

  skipped_rounds :
      (left round : ℕ) (w : Sweep)
      → All KeptBack w.skipped_ids
      → All KeptBack (sweep_rounds t s left round w).skipped_ids
  unfolding sweep_rounds purge_row
  skipped_rounds zero round w h = h
  skipped_rounds (suc left) round w h =
      elim (Option-cases (first_where before (is_due t s round w.skipped_ids) w.rows)) [
        | inl done ↦ rw (sweep_rounds, done) h
        | inr (row, selected) ↦
            rw (sweep_rounds, selected)
              (skipped_rounds left (suc round) (purge_row t s round row w)
                (skipped_row round row w (references_for t (s.references round) row.id) refl h))
      ]

  kept_back : (id : ℕ) (ids : List ℕ) → is_in id ids ≡ true → All KeptBack ids → KeptBack id
  kept_back id [] h k = cc
  kept_back id (i ∷ ids) h k = elim (Bool-cases (i == id)) [
    | inl same ↦ subst KeptBack (ground arith) k.0
    | inr other ↦ kept_back id ids (ground arith) k.1
  ]

  settled_row :
      (w : Sweep)
      → All KeptBack w.skipped_ids
      → (e : Evidence)
      → is_state e.lifecycle_state purge_pending && not (is_in e.id w.skipped_ids) ≡ false
      → (e.lifecycle_state ≢ purge_pending) ⊎ KeptBack e.id
  settled_row w k e h = elim (Bool-cases (is_in e.id w.skipped_ids)) [
    | inl skipped ↦ inr (kept_back e.id w.skipped_ids skipped k)
    | inr tried ↦ inl (λ q. ground arith)
  ]

  -- Where the storage and the database work, no other worker holds a row, and the limit is as large as
  -- the table, a sweep leaves no row pending but those that an OCR run, an analysis run or a report
  -- snapshot refers to in some round. Such a row does not keep the rows after it waiting.
  pub sweep_exhausts :
      Working
      → (limit : ℕ) (rows : List Evidence) → length rows ≤ limit
      → All
          (λ e. (e.lifecycle_state ≢ purge_pending) ⊎ KeptBack e.id)
          (sweep_pending_purges t s limit rows).rows
  unfolding sweep_pending_purges
  sweep_exhausts works limit rows enough =
      let start : Sweep = record { rows = rows; skipped_ids = []; completed = 0; deletions = [] } in
      let w = sweep_rounds t s limit 0 start in
      All-imp _ _ w.rows (settled_row w (skipped_rounds limit 0 start tt)) (
        rounds_exhaust works limit 0 start
          (omega (arith, count_le-length (is_due t s 0 []) rows, enough)))

module _ (t : Texts) (s : Surroundings) (rows : List Evidence) (row : Evidence)
    (first : (round : ℕ) → first_where before (is_due t s round []) rows ≡ some row)
    (free : (round : ℕ) → references_for t (s.references round) row.id ≡ [])
    (fails : (round : ℕ) → purge_storage (s.delete_object round (plan_of row)) ≢ none) where
  stuck_rounds :
      (left round : ℕ)
      → let start : Sweep = record {
        rows = rows;
        skipped_ids = [];
        completed = 0;
        deletions = [];
      } in
        sweep_rounds t s left round start ≡ start
  unfolding sweep_rounds purge_row
  stuck_rounds zero round = refl
  stuck_rounds (suc left) round =
      elim (Option-cases (purge_storage (s.delete_object round (plan_of row)))) [
        | inl gone ↦ absurd (fails round gone)
        | inr (error, raised) ↦
            rw (sweep_rounds, first round)
              (rw (free round) (rw raised (stuck_rounds left (suc round))))
      ]

  -- Where the storage refuses, in every round, the object of the row that comes first, a sweep of any
  -- limit purges nothing: no round passes on to another row, whether or not its object could be deleted.
  pub sweep_starved :
      (limit : ℕ)
      → let w = sweep_pending_purges t s limit rows in
        (w.rows ≡ rows) × (w.completed ≡ 0) × (w.deletions ≡ [])
  unfolding sweep_pending_purges
  sweep_starved limit = rw (stuck_rounds limit 0) (refl, refl, refl)
