-- ===== src/Evidence/Sweep.antt =====
-- `sweep_pending_purges` (apps/api/app/evidence_purge_worker.py).
pub mod Safety
pub mod Progress
use noc_report.Common.{
  ℕ, zero, suc, ◌+◌, String, Bool, true, false, not, ◌&&◌, ◌||◌, Option, none, some, List, [], ◌∷◌,
  ◌==◌, any, ltb, if◌then◌else◌,
}
use noc_report.Table.{first_where, update_row}
use noc_report.Evidence.{
  Evidence, EvidencePurgePlan, plan_of, References, Texts, references_for, is_state, purge_pending,
  purged, StorageError, purge_storage,
}

-- What happens outside in each round: the references that others have committed, the rows that
-- another worker has locked, how the storage answers to a deletion, and whether the commit fails.
pub record Surroundings : Type 0 where
  pub references : ℕ → References
  pub locked : ℕ → ℕ → Bool
  pub delete_object : ℕ → EvidencePurgePlan → Option StorageError
  pub commit_fails : ℕ → Bool

pub record Sweep : Type 0 where
  pub rows : List Evidence
  pub skipped_ids : List ℕ
  pub completed : ℕ
  -- The rounds in which the storage deleted an object, with the row, newest first.
  pub deletions : List (ℕ × Evidence)

abbrev at_or_zero : Option ℕ → ℕ
at_or_zero none = 0
at_or_zero (some t) = t

-- `ORDER BY deleted_at, created_at`; a pending row has a time of deletion.
abbrev pub before : Evidence → Evidence → Bool
before e f =
    ltb (at_or_zero e.deleted_at) (at_or_zero f.deleted_at)
    || (at_or_zero e.deleted_at == at_or_zero f.deleted_at && ltb e.created_at f.created_at)

abbrev pub is_in : ℕ → List ℕ → Bool
is_in id ids = any (λ i. i == id) ids

abbrev pub row_id : Evidence → ℕ
row_id e = e.id

module _ (t : Texts) (s : Surroundings) where
  abbrev pub is_due : ℕ → List ℕ → Evidence → Bool
  is_due round skipped e =
      is_state e.lifecycle_state purge_pending
      && not (is_in e.id skipped)
      && not (s.locked round e.id)

  -- After the deletion: the new state and the commit, which rolls back where it fails.
  abbrev pub settle : ℕ → Evidence → Sweep → Bool → Sweep
  settle round row w true = record w { deletions = (round, row) ∷ w.deletions }
  settle round row w false = record w {
    rows = update_row row_id row.id (λ e. record e { lifecycle_state = purged }) w.rows;
    completed = w.completed + 1;
    deletions = (round, row) ∷ w.deletions;
  }

  abbrev pub store : ℕ → Evidence → Sweep → Option StorageError → Sweep
  store round row w (some error) = w
  store round row w none = settle round row w (s.commit_fails round)

  -- A row that something refers to by now is skipped for the rest of the sweep.
  abbrev pub protect : ℕ → Evidence → Sweep → List String → Sweep
  protect round row w (r ∷ rs) = record w { skipped_ids = row.id ∷ w.skipped_ids }
  protect round row w [] = store round row w (purge_storage (s.delete_object round (plan_of row)))

  unfoldable pub purge_row : ℕ → Evidence → Sweep → Sweep
  purge_row round row w = protect round row w (references_for t (s.references round) row.id)

  unfoldable pub sweep_rounds : ℕ → ℕ → Sweep → Sweep
  sweep_rounds zero round w = w
  sweep_rounds (suc left) round w = elim (first_where before (is_due round w.skipped_ids) w.rows) [
    | none ↦ w
    | some row ↦ sweep_rounds left (suc round) (purge_row round row w)
  ]

  -- The count is `completed` of the result.
  unfoldable pub sweep_pending_purges : ℕ → List Evidence → Sweep
  sweep_pending_purges limit rows =
      sweep_rounds limit 0 (record { rows = rows; skipped_ids = []; completed = 0; deletions = [] })
