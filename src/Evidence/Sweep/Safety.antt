-- ===== src/Evidence/Sweep/Safety.antt =====
-- What a sweep deletes.
use noc_report.Common.{
  ℕ, String, zero, suc, ◌≡◌, refl, sym, ◌∙◌, All₂-imp, All₂-same, ◌⊎◌, inl, inr, Bool, true, false,
  some, List, [], ◌∷◌, arith, if◌then◌else◌, Bool-cases, Option-cases, All, All-imp, All₂, Exists,
  Among, ◌==◌,
}
use noc_report.Table.{first_where, first_where-All, first_where-satisfies, update_row-All₂}
use noc_report.Table.Keys.{HasKeys, IsOnly, first_where-IsOnly, update_row-HasKeys}
use noc_report.Evidence.{
  Evidence, Texts, references_for, purge_pending, purged, purge_storage, plan_of,
}
use noc_report.Evidence.Protection.{IsProtected, references_for-none}
use noc_report.Evidence.Sweep.{
  Surroundings, Sweep, before, row_id, is_due, settle, protect, purge_row, sweep_rounds,
  sweep_pending_purges,
}

module _ (t : Texts) (s : Surroundings) (rows : List Evidence) where
  -- A row as it was, or a pending row that is purged now and whose object is gone.
  abbrev pub Swept : List (ℕ × Evidence) → Evidence → Evidence → Type 0
  Swept deletions e e' =
      (e' ≡ e)
      ⊎ ((e.lifecycle_state ≡ purge_pending)
          × (e' ≡ record e { lifecycle_state = purged })
          × Exists (λ d. d.1 ≡ e) deletions)

  -- A deletion in a round in which nothing refers to the evidence, of a row that was pending.
  abbrev pub Allowed : ℕ × Evidence → Type 0
  Allowed d =
      (d.1.lifecycle_state ≡ purge_pending)
      × (¬ IsProtected t (s.references d.0) d.1.id)
      × Among d.1 rows

  abbrev Good : Sweep → Type 0
  Good w = All₂ (Swept w.deletions) rows w.rows × All Allowed w.deletions × HasKeys row_id w.rows

  pending_original :
      (deletions : List (ℕ × Evidence)) (es es' : List Evidence)
      → ((e : Evidence) → Among e es → Among e rows)
      → All₂ (Swept deletions) es es'
      → All (λ e. e.lifecycle_state ≡ purge_pending → Among e rows) es'
  pending_original ds [] [] sub h = tt
  pending_original ds [] (e' ∷ es') sub h = elim h [ ]
  pending_original ds (e ∷ es) [] sub h = elim h [ ]
  pending_original ds (e ∷ es) (e' ∷ es') sub (inl q, h) =
      (λ _. rw q (sub e (inl refl)), pending_original ds es es' (λ x m. sub x (inr m)) h)
  pending_original ds (e ∷ es) (e' ∷ es') sub (inr (p, q, m), h) =
      (λ c. absurd (ground arith), pending_original ds es es' (λ x m. sub x (inr m)) h)

  more_deletions :
      (d : ℕ × Evidence) (ds : List (ℕ × Evidence)) (e e' : Evidence)
      → Swept ds e e'
      → Swept (d ∷ ds) e e'
  more_deletions d ds e e' (inl q) = inl q
  more_deletions d ds e e' (inr (p, q, m)) = inr (p, q, inr m)

  purged_same :
      (round : ℕ) (row : Evidence) (ds : List (ℕ × Evidence)) (e e' : Evidence)
      → row.lifecycle_state ≡ purge_pending
      → e' ≡ row
      → Swept ds e e'
      → Swept ((round, row) ∷ ds) e (record e' { lifecycle_state = purged })
  purged_same round row ds e e' p at (inl q) = inr (ground arith, rw q refl, inl (sym at ∙ q))
  purged_same round row ds e e' p at (inr (p', q, m)) = absurd (ground arith)

  purged_row :
      (round : ℕ) (row : Evidence) (ds : List (ℕ × Evidence)) (e e' : Evidence)
      → row.lifecycle_state ≡ purge_pending
      → (e'.id ≡ row.id → e' ≡ row)
      → Swept ds e e'
      → Swept
          ((round, row) ∷ ds)
          e
          (if e'.id == row.id then record e' { lifecycle_state = purged } else e')
  purged_row round row ds e e' p only h = elim (Bool-cases (e'.id == row.id)) [
    | inl same ↦ rw same (purged_same round row ds e e' p (only (ground arith)) h)
    | inr other ↦ rw other (more_deletions (round, row) ds e e' h)
  ]

  module _ (round : ℕ) (row : Evidence) (w : Sweep) (pending : row.lifecycle_state ≡ purge_pending)
      (original : Among row rows) (only : IsOnly row_id w.rows row) where
    settle-Good :
        references_for t (s.references round) row.id ≡ []
        → Good w
        → (fails : Bool) → Good (settle t s round row w fails)
    settle-Good free (swept, allowed, keys) true = (
      All₂-imp _ _ rows w.rows (more_deletions (round, row) w.deletions) swept,
      ((pending, references_for-none t (s.references round) row.id free, original), allowed),
      keys,
    )
    settle-Good free (swept, allowed, keys) false = (
      update_row-All₂ row_id _ _ (λ e. e.id ≡ row.id → e ≡ row) row.id _ rows w.rows
          (λ e e' q h. purged_row round row w.deletions e e' pending q h) only swept,
      ((pending, references_for-none t (s.references round) row.id free, original), allowed),
      update_row-HasKeys row_id row.id _ (λ e. refl) w.rows keys,
    )

    protect-Good :
        (rs : List String)
        → references_for t (s.references round) row.id ≡ rs
        → Good w
        → Good (protect t s round row w rs)
    protect-Good (r ∷ rs) e h = h
    protect-Good [] e h =
        elim (Option-cases (purge_storage (s.delete_object round (plan_of row)))) [
          | inl gone ↦ rw gone (settle-Good e h (s.commit_fails round))
          | inr (error, raised) ↦ rw raised h
        ]

  attempt_Good :
      (round : ℕ) (row : Evidence) (w : Sweep)
      → first_where before (is_due t s round w.skipped_ids) w.rows ≡ some row
      → Good w
      → Good (purge_row t s round row w)
  unfolding purge_row
  attempt_Good round row w selected h =
      let p = is_due t s round w.skipped_ids in
      let due = first_where-satisfies before p w.rows row selected in
      let original =
        first_where-All before p (λ e. Among e rows) w.rows
          (All-imp _ _ w.rows (λ e m due. m (ground arith))
            (pending_original w.deletions rows w.rows (λ e m. m) h.0))
          row selected in
      protect-Good round row w (ground arith) original
        (first_where-IsOnly row_id before p w.rows h.2 row selected)
        (references_for t (s.references round) row.id) refl h

  rounds_Good : (left round : ℕ) (w : Sweep) → Good w → Good (sweep_rounds t s left round w)
  unfolding sweep_rounds
  rounds_Good zero round w h = h
  rounds_Good (suc left) round w h =
      elim (Option-cases (first_where before (is_due t s round w.skipped_ids) w.rows)) [
        | inl done ↦ rw (sweep_rounds, done) h
        | inr (row, selected) ↦
            rw (sweep_rounds, selected)
              (rounds_Good left (suc round) (purge_row t s round row w)
                (attempt_Good round row w selected h))
      ]

  -- Of a table without repeated ids, whatever others commit and lock, and whether the storage and the
  -- commits fail or not, a sweep deletes an object only for a row of the table that was pending, in a
  -- round in which no OCR run, analysis run or report snapshot refers to the evidence. Each row stays as
  -- it was, or it was pending and is purged now, nothing else of it changed, and its object is deleted.
  pub sweep_safe :
      (limit : ℕ)
      → HasKeys row_id rows
      → let w = sweep_pending_purges t s limit rows in
        All Allowed w.deletions × All₂ (Swept w.deletions) rows w.rows
  unfolding sweep_pending_purges
  sweep_safe limit keys =
      let start : Sweep = record { rows = rows; skipped_ids = []; completed = 0; deletions = [] } in
      let h = rounds_Good limit 0 start (All₂-same _ rows (λ e. inl refl), tt, keys) in (h.1, h.0)
