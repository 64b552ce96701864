-- ===== src/Outbox/Progress.antt =====
-- A row that the broker refuses does not keep the others waiting.
use noc_report.Common.{
  ℕ, zero, suc, ◌+◌, ◌≤◌, ◌<◌, ◌≡◌, inl, inr, Bool, true, false, not, ◌&&◌, Option, none, some, [],
  ◌∷◌, arith, if◌then◌else◌, Option-cases, All, All-imp, ◌==◌, is_none, length,
}
use noc_report.Outbox.{
  OutboxEvent, Events, earlier, oldest, update_event, is_in, Pass, Broker, is_due, attempt_row,
  rounds, dispatch_pending_events,
}
use noc_report.Outbox.Selection.{oldest-none}

count : (OutboxEvent → Bool) → Events → ℕ
count p [] = 0
count p (e ∷ es) = (if p e then 1 else 0) + count p es

count_le-length : (p : OutboxEvent → Bool) (es : Events) → count p es ≤ length es
unfolding count
count_le-length p [] = omega arith
count_le-length p (e ∷ es) = ground (arith, count_le-length p es)

module _ (p q : OutboxEvent → Bool) (row : OutboxEvent) (f : OutboxEvent → OutboxEvent)
    (weaker : (e : OutboxEvent) → q (if e.id == row.id then f e else e) ≡ true → p e ≡ true) where
  count-update_event : (es : Events) → count q (update_event row.id f es) ≤ count p es
  unfolding count update_event
  count-update_event [] = omega arith
  count-update_event (e ∷ es) = ground (arith, weaker e, count-update_event es)

  later_selected :
      (e : OutboxEvent) (rest : Option OutboxEvent)
      → (e.id == row.id) ≡ false
      → some (earlier e rest) ≡ some row
      → rest ≡ some row
  later_selected e none other h = ground arith
  later_selected e (some r) other h = ground arith

  -- A row that stops being due makes the rows that are due fewer.
  count_selected :
      (es : Events)
      → ((e : OutboxEvent) → e.id ≡ row.id → q (f e) ≡ false)
      → oldest p es ≡ some row
      → count q (update_event row.id f es) < count p es
  unfolding count update_event oldest
  count_selected [] stops h = ground arith
  count_selected (e ∷ es) stops h = ground (
    arith,
    weaker e,
    count-update_event es,
    stops e,
    count_selected es stops,
    later_selected e (oldest p es),
  )

-- Nobody else holds a row, and no row is still to be sent.
module _ (b : Broker) (free : (round id : ℕ) → b.locked round id ≡ false) where
  abbrev due : ℕ → Pass → OutboxEvent → Bool
  due round s e = is_due b round s.failed_ids e

  fewer_due :
      (round : ℕ) (row : OutboxEvent) (s : Pass)
      → oldest (due round s) s.events ≡ some row
      → let s' = attempt_row b round row s in
        count (due (suc round) s') s'.events < count (due round s) s.events
  unfolding attempt_row
  fewer_due round row s h = elim (Option-cases (b.refusal round row)) [
    | inl accepted ↦ rw accepted (
        count_selected (due round s) (λ e. is_due b (suc round) s.failed_ids e) row _
          (λ e due. ground (arith, free round e.id)) s.events (λ e q. ground arith) h)
    | inr (error, refused) ↦ rw refused (
        count_selected (due round s) (λ e. is_due b (suc round) (row.id ∷ s.failed_ids) e) row _
          (λ e due. ground (arith, free round e.id)) s.events (λ e q. ground arith) h)
  ]

  none_due :
      (round : ℕ) (s : Pass)
      → All (λ e. due round s e ≡ false) s.events
      → All (λ e. is_none e.published_at && not (is_in e.id s.failed_ids) ≡ false) s.events
  none_due round s h = All-imp _ _ s.events (λ e q. ground (arith, free round e.id)) h

  no_count :
      (round : ℕ) (s : Pass)
      → count (due round s) s.events ≤ 0
      → oldest (due round s) s.events ≡ none
  no_count round s h = elim (Option-cases (oldest (due round s) s.events)) [
    | inl done ↦ done
    | inr (row, selected) ↦ absurd (omega (arith, fewer_due round row s selected, h))
  ]

  rounds_exhaust :
      (left round : ℕ) (s : Pass)
      → count (due round s) s.events ≤ left
      → let s' = rounds b left round s in
        All (λ e. is_none e.published_at && not (is_in e.id s'.failed_ids) ≡ false) s'.events
  unfolding rounds
  rounds_exhaust zero round s h =
      none_due round s (oldest-none (due round s) s.events (no_count round s h))
  rounds_exhaust (suc left) round s h = elim (Option-cases (oldest (due round s) s.events)) [
    | inl done ↦ rw (rounds, done) (none_due round s (oldest-none (due round s) s.events done))
    | inr (row, selected) ↦
        rw (rounds, selected)
          (rounds_exhaust left (suc round) (attempt_row b round row s)
            (omega (arith, fewer_due round row s selected, h)))
  ]

-- Where the batch is as large as the table and no other dispatcher locks rows, a pass leaves no row
-- behind: every row that is still pending after it was refused by the broker in this pass. A refused
-- row does not keep the rows after it from being tried.
pub dispatch_exhausts :
    (b : Broker) (batch_size : ℕ) (events : Events)
    → ((round id : ℕ) → b.locked round id ≡ false)
    → length events ≤ batch_size
    → let s = dispatch_pending_events b batch_size events in
      All (λ e. is_none e.published_at && not (is_in e.id s.failed_ids) ≡ false) s.events
unfolding dispatch_pending_events
dispatch_exhausts b batch_size events free enough =
    let start : Pass = record { events = events; sent = []; failed_ids = []; published = 0 } in
    rounds_exhaust b free batch_size 0 start
      (omega (arith, count_le-length (λ e. is_due b 0 [] e) events, enough))
