-- ===== src/Outbox/Rows.antt =====
-- What one round of a pass does to each row of the outbox.
use noc_report.Common.{
  ℕ, ◌+◌, String, ◌≡◌, refl, ◌⊎◌, inl, inr, true, false, none, some, [], ◌∷◌, arith, if◌then◌else◌,
  Bool-cases, ◌==◌, is_none,
}
use noc_report.Outbox.{
  OutboxEvent, Events, is_in, Pass, Broker, is_due, record_refusal, record_published,
}
use noc_report.Outbox.Selection.{ids}

-- What a pass leaves of a row: the row as it was, neither sent nor refused; a pending row that was
-- sent, with its time of publication and no error; or a pending row that was refused, with one attempt
-- more and the error.
abbrev pub RowOutcome : Pass → OutboxEvent → OutboxEvent → Type 0
RowOutcome s e e' =
    ((e' ≡ e) × (is_in e.id (ids s.sent) ≡ false) × (is_in e.id s.failed_ids ≡ false))
    ⊎ ((is_none e.published_at ≡ true)
        × (is_in e.id (ids s.sent) ≡ true)
        × (is_in e.id s.failed_ids ≡ false)
        × ((t : ℕ) × (e' ≡ record e { published_at = some t; last_error = none })))
    ⊎ ((is_none e.published_at ≡ true)
        × (is_in e.id (ids s.sent) ≡ false)
        × (is_in e.id s.failed_ids ≡ true)
        × ((error : String) × (e'
              ≡ record e { attempt_count = e.attempt_count + 1; last_error = some error })))

-- The row is one of the list.
abbrev pub Among : OutboxEvent → Events → Type 0
Among e [] = ⊥
Among e (f ∷ fs) = (e ≡ f) ⊎ Among e fs

module _ (b : Broker) (round : ℕ) (s : Pass) (row : OutboxEvent)
    (due : is_due b round s.failed_ids row ≡ true) where
  pub due_pending : is_none row.published_at ≡ true
  due_pending = ground arith

  pub due_unrefused : is_in row.id s.failed_ids ≡ false
  due_unrefused = ground arith

  module _ (e e' : OutboxEvent) (only : e'.id ≡ row.id → e' ≡ row) where
    pub refused_row :
        (error : String)
        → RowOutcome s e e'
        → RowOutcome (record_refusal b row s error) e (
            if e'.id == row.id
            then record e' { attempt_count = e'.attempt_count + 1; last_error = some error }
            else e')
    refused_row error (inl (q, a, c)) = elim (Bool-cases (e'.id == row.id)) [
      | inl same ↦ rw same (inr (inr (ground arith, a, ground arith, (error, rw q refl))))
      | inr other ↦ rw other (inl (q, a, ground arith))
    ]
    refused_row error (inr (inl (p, a, c, (t, q)))) = elim (Bool-cases (e'.id == row.id)) [
      | inl same ↦ absurd (ground arith)
      | inr other ↦ rw other (inr (inl (p, a, ground arith, (t, q))))
    ]
    refused_row error (inr (inr (p, a, c, (t, q)))) = elim (Bool-cases (e'.id == row.id)) [
      | inl same ↦ absurd (ground arith)
      | inr other ↦ rw other (inr (inr (p, a, ground arith, (t, q))))
    ]

    pub published_row :
        RowOutcome s e e'
        → RowOutcome (record_published b round row s) e (
            if e'.id == row.id
            then record e' { published_at = some (b.now round); last_error = none }
            else e')
    unfolding ids
    published_row (inl (q, a, c)) = elim (Bool-cases (e'.id == row.id)) [
      | inl same ↦ rw same (inr (inl (ground arith, ground arith, c, (b.now round, rw q refl))))
      | inr other ↦ rw other (inl (q, ground arith, c))
    ]
    published_row (inr (inl (p, a, c, (t, q)))) = elim (Bool-cases (e'.id == row.id)) [
      | inl same ↦ absurd (ground arith)
      | inr other ↦ rw other (inr (inl (p, ground arith, c, (t, q))))
    ]
    published_row (inr (inr (p, a, c, (t, q)))) = elim (Bool-cases (e'.id == row.id)) [
      | inl same ↦ absurd (ground arith)
      | inr other ↦ rw other (inr (inr (p, ground arith, c, (t, q))))
    ]
