-- ===== src/Outbox/Selection.antt =====
-- The rows that a pass selects and updates.
use noc_report.Common.{
  ℕ, ◌≡◌, refl, sym, Bool, true, false, Option, none, some, List, [], ◌∷◌, leb, arith,
  if◌then◌else◌, Bool-cases, inl, inr, All, All-imp, All-imp₂, ◌≢◌,
}
use mathlib.Core.Path.{subst}
use noc_report.Outbox.{OutboxEvent, Events, earlier, oldest, update_event, is_in}

earlier_either : (P : OutboxEvent → Type 0) (e f : OutboxEvent) → P e → P f → P (earlier e (some f))
earlier_either P e f pe pf = elim (Bool-cases (leb e.created_at f.created_at)) [
  | inl first ↦ rw first pe
  | inr later ↦ rw later pf
]

same : (e f : OutboxEvent) → some e ≡ some f → e ≡ f
same e f h = cc

chosen :
    (P : OutboxEvent → Type 0) (b : Bool) (e : OutboxEvent) (rest : Option OutboxEvent)
    → (b ≡ true → P e)
    → ((r : OutboxEvent) → rest ≡ some r → P r)
    → (row : OutboxEvent) → (if b then some (earlier e rest) else rest) ≡ some row
    → P row
chosen P false e rest pe f row h = f row h
chosen P true e none pe f row h = subst P (same e row h) (pe refl)
chosen P true e (some r) pe f row h =
    subst P (same (earlier e (some r)) row h) (earlier_either P e r (pe refl) (f r refl))

module _ (p : OutboxEvent → Bool) where
  -- What holds of every row that satisfies the condition holds of the selected one.
  pub oldest-All :
      (P : OutboxEvent → Type 0) (es : Events)
      → All (λ e. p e ≡ true → P e) es
      → (row : OutboxEvent) → oldest p es ≡ some row
      → P row
  unfolding oldest
  oldest-All P [] all row h = cc
  oldest-All P (e ∷ es) all row h =
      chosen P (p e) e (oldest p es) all.0 (oldest-All P es all.1) row h

  always : (es : Events) → All (λ e. p e ≡ true → p e ≡ true) es
  always [] = tt
  always (e ∷ es) = (λ h. h, always es)

  pub oldest-satisfies : (es : Events) (row : OutboxEvent) → oldest p es ≡ some row → p row ≡ true
  oldest-satisfies es row h = oldest-All (λ e. p e ≡ true) es (always es) row h

  pub oldest-none : (es : Events) → oldest p es ≡ none → All (λ e. p e ≡ false) es
  unfolding oldest
  oldest-none [] h = tt
  oldest-none (e ∷ es) h = elim (Bool-cases (p e)) [
    | inl due ↦ cc (rw due at h)
    | inr skipped ↦ (skipped, oldest-none es (rw skipped at h))
  ]

unfoldable pub ids : Events → List ℕ
ids [] = []
ids (e ∷ es) = e.id ∷ ids es

-- No id twice.
abbrev pub Distinct : List ℕ → Type 0
Distinct [] = Unit
Distinct (i ∷ is) = (is_in i is ≡ false) × Distinct is

pub ids-update_event :
    (id : ℕ) (f : OutboxEvent → OutboxEvent) (es : Events)
    → ((e : OutboxEvent) → (f e).id ≡ e.id)
    → ids (update_event id f es) ≡ ids es
unfolding ids update_event
ids-update_event id f [] keeps = refl
ids-update_event id f (e ∷ es) keeps = ground (arith, keeps e, ids-update_event id f es keeps)

abbrev IsOnly : Events → OutboxEvent → Type 0
IsOnly es row = All (λ e. e.id ≡ row.id → e ≡ row) es

absent_ne : (i : ℕ) (es : Events) → is_in i (ids es) ≡ false → All (λ e. e.id ≢ i) es
unfolding ids
absent_ne i [] h = tt
absent_ne i (e ∷ es) h = (λ q. absurd (ground arith), absent_ne i es (ground arith))

pub All-IsOnly : (es : Events) → Distinct (ids es) → All (IsOnly es) es
unfolding ids
All-IsOnly [] d = tt
All-IsOnly (e ∷ es) d =
    let others = absent_ne e.id es d.0 in
    (
      (λ _. refl, All-imp _ _ es (λ x ne q. absurd (ne q)) others),
      All-imp₂ _ _ _ es (λ x ne only. (λ q. absurd (ne (sym q)), only)) others (All-IsOnly es d.1),
    )

-- With distinct ids the selected row is the only one of its id.
pub oldest-IsOnly :
    (p : OutboxEvent → Bool) (es : Events)
    → Distinct (ids es)
    → (row : OutboxEvent) → oldest p es ≡ some row
    → IsOnly es row
oldest-IsOnly p es d =
    oldest-All p (IsOnly es) es (All-imp _ _ es (λ x only _. only) (All-IsOnly es d))
