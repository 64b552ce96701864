-- ===== src/Composition/Narrative.antt =====
-- What the plan of a canonical report can change.
use noc_report.Common.{◌≡◌, refl, inl, inr, true, Option, none, some, Bool-cases}
use noc_report.Json.{obj, Fields, get_or_null, has_key}
use noc_report.Document.Reading.{◌>>=◌}
use noc_report.Composition.{Library}
use noc_report.Composition.Plan.{Frozen, frozen_incidents, narrative_summary}
use noc_report.Composition.Select.{Policy, report_policy, parsed_plan}
use noc_report.Composition.Compose.{compose_report}

bind-same :
    {A B : Type 0} (m : Option A) (f g : A → Option B)
    → ((a : A) → f a ≡ g a)
    → (m >>= f) ≡ (m >>= g)
bind-same none f g h = refl
bind-same (some a) f g h = h a

parsed_plan-canonical :
    (lib : Library) (policy : Policy) (frozen : Frozen) (p q : Fields)
    → policy.canonical ≡ true
    → has_key "general_summary" p ≡ has_key "general_summary" q
    → narrative_summary lib (get_or_null "general_summary" p)
      ≡ narrative_summary lib (get_or_null "general_summary" q)
    → parsed_plan lib policy frozen p ≡ parsed_plan lib policy frozen q
unfolding parsed_plan
parsed_plan-canonical lib policy frozen p q c k e =
    elim (Bool-cases (has_key "general_summary" q)) [
      | inl h ↦ rw (k, h, e) refl
      | inr h ↦ rw (k, h, c) refl
    ]

-- Two plans for a canonical report that both have a general summary or both have none, and whose
-- general summaries read as the same pair of texts or are refused alike, give the same report or are refused
-- alike: nothing else in a plan reaches the report.
pub compose_report-canonical :
    (lib : Library) (p q snapshot : Fields) (policy : Policy)
    → report_policy snapshot ≡ some policy
    → policy.canonical ≡ true
    → has_key "general_summary" p ≡ has_key "general_summary" q
    → narrative_summary lib (get_or_null "general_summary" p)
      ≡ narrative_summary lib (get_or_null "general_summary" q)
    → compose_report lib (obj p) snapshot ≡ compose_report lib (obj q) snapshot
unfolding compose_report
compose_report-canonical lib p q snapshot policy s c k e = rw s (
    bind-same (frozen_incidents lib snapshot) _ _
      (λ f. rw (k, parsed_plan-canonical lib policy f p q c k e) refl))
