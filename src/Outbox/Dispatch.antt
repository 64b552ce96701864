-- ===== src/Outbox/Dispatch.antt =====
-- What a pass does to each row of the outbox.
use noc_report.Common.{
  ℕ, zero, suc, ◌≡◌, refl, ◌∙◌, inl, inr, true, false, some, [], ◌∷◌, arith, if◌then◌else◌,
  Option-cases, All, All₂, ◌==◌, length,
}
use noc_report.Outbox.{
  OutboxEvent, Events, oldest, update_event, is_in, Pass, Broker, is_due, attempt_row, rounds,
  dispatch_pending_events,
}
use noc_report.Outbox.Selection.{
  oldest-All, oldest-satisfies, oldest-IsOnly, ids, Distinct, ids-update_event,
}
use noc_report.Outbox.Rows.{RowOutcome, Among, refused_row, published_row}

-- What the rounds of a pass maintain.
abbrev Passed : Events → Pass → Type 0
Passed events s =
    All₂ (RowOutcome s) events s.events
    × Distinct (ids s.sent)
    × All (λ row. Among row events) s.sent
    × (s.published ≡ length s.sent)
    × (ids s.events ≡ ids events)

module _ (R S : OutboxEvent → OutboxEvent → Type 0) (Q : OutboxEvent → Type 0) (id : ℕ)
    (f : OutboxEvent → OutboxEvent) where
  update_All₂ :
      (es es' : Events)
      → ((e e' : OutboxEvent) → Q e' → R e e' → S e (if e'.id == id then f e' else e'))
      → All Q es'
      → All₂ R es es'
      → All₂ S es (update_event id f es')
  unfolding update_event
  update_All₂ [] [] step q h = tt
  update_All₂ [] (e' ∷ es') step q h = elim h [ ]
  update_All₂ (e ∷ es) [] step q h = elim h [ ]
  update_All₂ (e ∷ es) (e' ∷ es') step q h = (step e e' q.0 h.0, update_All₂ es es' step q.1 h.1)

-- A row that is still to be sent in this pass is as it was, and was not sent.
module _ (b : Broker) (round : ℕ) (s : Pass) where
  due_unsent :
      (e e' : OutboxEvent)
      → RowOutcome s e e'
      → is_due b round s.failed_ids e' ≡ true
      → (e' ≡ e) × (is_in e'.id (ids s.sent) ≡ false)
  due_unsent e e' (inl (q, a, c)) due = (q, rw q a)
  due_unsent e e' (inr (inl (p, a, c, (t, q)))) due = absurd (ground arith)
  due_unsent e e' (inr (inr (p, a, c, (t, q)))) due = absurd (ground arith)

  due_original :
      (events es es' : Events)
      → ((e : OutboxEvent) → Among e es → Among e events)
      → All₂ (RowOutcome s) es es'
      → All
          (λ e'.
            is_due b round s.failed_ids e' ≡ true
            → Among e' events × (is_in e'.id (ids s.sent) ≡ false))
          es'
  due_original events [] [] sub h = tt
  due_original events [] (e' ∷ es') sub h = elim h [ ]
  due_original events (e ∷ es) [] sub h = elim h [ ]
  due_original events (e ∷ es) (e' ∷ es') sub h = (
    λ due. let (q, a) = due_unsent e e' h.0 due in (rw q (sub e (inl refl)), a),
    due_original events es es' (λ x m. sub x (inr m)) h.1,
  )

module _ (b : Broker) (events : Events) (distinct : Distinct (ids events)) where
  attempt_Passed :
      (round : ℕ) (row : OutboxEvent) (s : Pass)
      → oldest (is_due b round s.failed_ids) s.events ≡ some row
      → Passed events s
      → Passed events (attempt_row b round row s)
  unfolding attempt_row ids
  attempt_Passed round row s selected (rows, once, from, count, same) =
      let p = is_due b round s.failed_ids in
      let due = oldest-satisfies p s.events row selected in
      let only = oldest-IsOnly p s.events (rw same distinct) row selected in
      let (original, unsent) =
        oldest-All p (λ e. Among e events × (is_in e.id (ids s.sent) ≡ false)) s.events
          (due_original b round s events events s.events (λ x m. m) rows) row selected in
      elim (Option-cases (b.refusal round row)) [
        | inl accepted ↦ rw accepted (
          update_All₂ (RowOutcome s) _ (λ e. e.id ≡ row.id → e ≡ row) row.id _ events s.events
              (λ e e' q h. published_row b round s row due e e' q h) only rows,
          (unsent, once),
          (original, from),
          (rw count (omega arith)),
          (ids-update_event row.id _ s.events (λ e. refl) ∙ same),
        )
        | inr (error, refused) ↦ rw refused (
          update_All₂ (RowOutcome s) _ (λ e. e.id ≡ row.id → e ≡ row) row.id _ events s.events
              (λ e e' q h. refused_row b round s row due e e' q error h) only rows,
          once,
          from,
          count,
          (ids-update_event row.id _ s.events (λ e. refl) ∙ same),
        )
      ]

  rounds-Passed :
      (left round : ℕ) (s : Pass) → Passed events s → Passed events (rounds b left round s)
  unfolding rounds
  rounds-Passed zero round s h = h
  rounds-Passed (suc left) round s h =
      elim (Option-cases (oldest (is_due b round s.failed_ids) s.events)) [
        | inl done ↦ rw (rounds, done) h
        | inr (row, selected) ↦
            rw (rounds, selected)
              (rounds-Passed left (suc round) (attempt_row b round row s)
                (attempt_Passed round row s selected h))
      ]

unchanged : (s : Pass) → s.sent ≡ [] → s.failed_ids ≡ [] → (es : Events) → All₂ (RowOutcome s) es es
unfolding ids
unchanged s a c [] = tt
unchanged s a c (e ∷ es) = (inl (refl, rw a refl, rw c refl), unchanged s a c es)

-- Of a table of distinct ids, whatever the broker answers and other dispatchers lock, a pass leaves
-- each row in one of three ways: as it was, neither sent nor refused; sent while pending, with a time
-- of publication and no error; or refused while pending, still pending, with one attempt more and the
-- error. No row is sent twice in a pass, each message sent is a row of the table as it stood before the
-- pass, and the number that the pass returns is the number of messages sent.
pub dispatch_outcome :
    (b : Broker) (batch_size : ℕ) (events : Events)
    → Distinct (ids events)
    → let s = dispatch_pending_events b batch_size events in
      All₂ (RowOutcome s) events s.events
      × Distinct (ids s.sent)
      × All (λ row. Among row events) s.sent
      × (s.published ≡ length s.sent)
unfolding dispatch_pending_events ids
dispatch_outcome b batch_size events distinct =
    let start : Pass = record { events = events; sent = []; failed_ids = []; published = 0 } in
    let (rows, once, from, count, same) =
      rounds-Passed b events distinct batch_size 0 start
        (unchanged start refl refl events, tt, tt, refl, refl) in
    (rows, once, from, count)
