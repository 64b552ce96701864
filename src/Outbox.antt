-- ===== src/Outbox.antt =====
-- apps/api/app/outbox.py: the table `outbox_events`, the dispatcher's pass over it and its clean-up,
-- and the event that `enqueue_job` (apps/api/app/jobs.py) adds. A UUID is its integer, a time a number
-- of microseconds. Of rows created at the same time the one that stands first in the table is taken.
pub mod Selection
pub mod Rows
pub mod Dispatch
pub mod Progress
pub mod Retention
use noc_report.Common.{
  ℕ, zero, suc, ◌+◌, ◌-◌, ◌*◌, String, Bool, true, false, not, ◌&&◌, ◌||◌, Option, none, some, List,
  [], ◌∷◌, ◌++◌, ltb, leb, ◌==◌, any, length, is_none, if◌then◌else◌,
}
use noc_report.Json.{Fields}

pub record OutboxEvent : Type 0 where
  pub id : ℕ
  pub job_id : ℕ
  pub routing_key : String
  pub payload : Fields
  pub created_at : ℕ
  pub published_at : Option ℕ
  pub attempt_count : ℕ
  pub last_error : Option String

abbrev pub Events : Type 0
Events = List OutboxEvent

abbrev pub is_in : ℕ → List ℕ → Bool
is_in id ids = any (λ i. i == id) ids

-- `ORDER BY created_at ASC LIMIT 1`, of the rows that satisfy the condition.
abbrev pub earlier : OutboxEvent → Option OutboxEvent → OutboxEvent
earlier e none = e
earlier e (some f) = if leb e.created_at f.created_at then e else f

unfoldable pub oldest : (OutboxEvent → Bool) → Events → Option OutboxEvent
oldest p [] = none
oldest p (e ∷ es) = let rest = oldest p es in if p e then some (earlier e rest) else rest

-- `UPDATE outbox_events SET … WHERE id = …`.
unfoldable pub update_event : ℕ → (OutboxEvent → OutboxEvent) → Events → Events
update_event id f [] = []
update_event id f (e ∷ es) = (if e.id == id then f e else e) ∷ update_event id f es

-- What a pass has done so far.
pub record Pass : Type 0 where
  pub events : Events
  -- The events whose publication the broker confirmed, newest first.
  pub sent : Events
  pub failed_ids : List ℕ
  pub published : ℕ

-- The broker's answer to each attempt (the error, cut to 2000
-- characters, where `publish_message` raises), the clock of
-- the database, and the rows that another dispatcher has locked.
pub record Broker : Type 0 where
  pub refusal : ℕ → OutboxEvent → Option String
  pub now : ℕ → ℕ
  pub locked : ℕ → ℕ → Bool

module _ (b : Broker) where
  -- The condition of the `SELECT`, in the given round.
  abbrev pub is_due : ℕ → List ℕ → OutboxEvent → Bool
  is_due round failed e =
      is_none e.published_at && not (is_in e.id failed) && not (b.locked round e.id)

  abbrev pub record_refusal : OutboxEvent → Pass → String → Pass
  record_refusal row s error = record s {
    events =
        update_event row.id
          (λ e. record e { attempt_count = e.attempt_count + 1; last_error = some error }) s.events;
    failed_ids = row.id ∷ s.failed_ids;
  }

  abbrev pub record_published : ℕ → OutboxEvent → Pass → Pass
  record_published round row s = record s {
    events =
        update_event row.id (λ e. record e { published_at = some (b.now round); last_error = none })
          s.events;
    sent = row ∷ s.sent;
    published = s.published + 1;
  }

  abbrev settle : ℕ → OutboxEvent → Pass → Option String → Pass
  settle round row s (some error) = record_refusal row s error
  settle round row s none = record_published round row s

  -- One round: publish the selected row, and record how it went. The record is assumed to be written: a
  -- database error there ends the pass in the source and is left out.
  unfoldable pub attempt_row : ℕ → OutboxEvent → Pass → Pass
  attempt_row round row s = settle round row s (b.refusal round row)

  unfoldable pub rounds : ℕ → ℕ → Pass → Pass
  rounds zero round s = s
  rounds (suc left) round s = elim (oldest (is_due round s.failed_ids) s.events) [
    | none ↦ s
    | some row ↦ rounds left (suc round) (attempt_row round row s)
  ]

  -- At most `batch_size` rounds; the count is `published` of the result.
  unfoldable pub dispatch_pending_events : ℕ → Events → Pass
  dispatch_pending_events batch_size events =
      rounds batch_size 0 (record { events = events; sent = []; failed_ids = []; published = 0 })

-- `published_at IS NOT NULL AND published_at < cutoff`.
abbrev pub is_expired : ℕ → OutboxEvent → Bool
is_expired cutoff e = elim e.published_at [ none ↦ false | some t ↦ ltb t cutoff ]

abbrev published_or_zero : OutboxEvent → ℕ
published_or_zero e = elim e.published_at [ none ↦ 0 | some t ↦ t ]

-- `ORDER BY published_at ASC, id ASC`.
abbrev pub precedes : OutboxEvent → OutboxEvent → Bool
precedes e f =
    ltb (published_or_zero e) (published_or_zero f)
    || (published_or_zero e == published_or_zero f && leb e.id f.id)

abbrev pub no_ids : List ℕ → Bool
no_ids [] = true
no_ids (i ∷ is) = false

unfoldable pub insert_sorted : OutboxEvent → Events → Events
insert_sorted e [] = e ∷ []
insert_sorted e (f ∷ fs) =
    let rest = insert_sorted e fs in if precedes e f then e ∷ f ∷ fs else f ∷ rest

-- The rows that may go, in the order of the `SELECT`; it skips the rows that another process has
-- locked.
abbrev pub is_eligible : ℕ → (ℕ → Bool) → OutboxEvent → Bool
is_eligible cutoff locked e = is_expired cutoff e && not (locked e.id)

unfoldable pub select_expired : ℕ → (ℕ → Bool) → Events → Events
unfolding insert_sorted
select_expired cutoff locked [] = []
select_expired cutoff locked (e ∷ es) =
    let rest = select_expired cutoff locked es in
    if is_eligible cutoff locked e then insert_sorted e rest else rest

unfoldable pub first_ids : ℕ → Events → List ℕ
first_ids zero es = []
first_ids (suc n) [] = []
first_ids (suc n) (e ∷ es) = e.id ∷ first_ids n es

-- `DELETE … WHERE id IN (…) AND published_at IS NOT NULL AND published_at < cutoff`: the rows that are
-- left, and the number deleted.
unfoldable pub delete_expired : ℕ → List ℕ → Events → Events × ℕ
delete_expired cutoff ids [] = ([], 0)
delete_expired cutoff ids (e ∷ es) =
    let (rest, deleted) = delete_expired cutoff ids es in
    if is_in e.id ids && is_expired cutoff e then (rest, suc deleted) else (e ∷ rest, deleted)

abbrev pub day : ℕ
day = 86400000000

-- The rows that are left and the number deleted; `none` is `ValueError`. The number of days is a
-- natural number here, so that its guard is always passed.
unfoldable pub purge_published_events : ℕ → ℕ → ℕ → (ℕ → Bool) → Events → Option (Events × ℕ)
unfolding select_expired first_ids delete_expired
purge_published_events retention_days batch_size now locked events =
    let cutoff = now - retention_days * day in
    let eligible_ids = first_ids batch_size (select_expired cutoff locked events) in
    if ltb batch_size 1
    then none
    else if no_ids eligible_ids
    then some (events, 0)
    else some (delete_expired cutoff eligible_ids events)
