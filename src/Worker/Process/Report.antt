-- ===== src/Worker/Process/Report.antt =====
-- What the making of a daily report leaves.
use noc_report.Common.{
  ℕ, ◌+◌, ◌≤◌, String, ◌≡◌, refl, ◌∙◌, ◌⊎◌, inl, inr, true, Option, none, some, List, [], ◌∷◌,
  arith, Option-cases, Bool-cases,
}
use noc_report.Json.{Json, str, Fields, get}
use noc_report.Result.{Result, Result-cases, continue, ok, err, ◌>>◌}
use noc_report.Worker.Attempts.{Attempted, at_least_one, daily_output}
use noc_report.Worker.Attempts.Outputs.{Planned, daily_output_bounded}
use noc_report.Worker.Evidence.{single_ref}
use noc_report.Worker.Process.Stored.{upload_cases}
use noc_report.Worker.Process.{
  Progress, Services, artifact, report_key, upload, has_text, is_given, keep, checked_plan,
  report_plan, render_report, daily_report_of, process_daily_report,
}

module _ (v : Services) (job_id : String) where
  abbrev plan_key : String
  plan_key = artifact job_id "report-plan.json"

  -- The saved plan, and nothing stored; or no saved plan, and the plan stored before its telemetry.
  abbrev pub Base : Json → List String → Type 0
  Base plan stored =
      (v.check_plan plan ≡ ok tt)
      × (((v.saved_plan job_id ≡ some plan) × (stored ≡ []))
          ⊎ (stored ≡ artifact job_id "report-telemetry.json" ∷ plan_key ∷ []))

  -- A complete set of artifacts was there, or all three are stored; after a raise, any first part of them.
  abbrev pub Rendered : Result (Unit {0}) → List String → List String → Type 0
  Rendered (ok u) base stored =
      ((v.artifacts_exist job_id ≡ true) × (stored ≡ base))
      ⊎ (stored
          ≡ report_key job_id "document.screenshots.json"
            ∷ report_key job_id "document.json"
            ∷ report_key job_id "report.docx"
            ∷ base)
  Rendered (err e) base stored =
      (stored ≡ base)
      ⊎ (stored ≡ report_key job_id "report.docx" ∷ base)
      ⊎ (stored ≡ report_key job_id "document.json" ∷ report_key job_id "report.docx" ∷ base)
      ⊎ (stored
          ≡ report_key job_id "document.screenshots.json"
            ∷ report_key job_id "document.json"
            ∷ report_key job_id "report.docx"
            ∷ base)

  render_report-Rendered :
      (plan snapshot : Json) (s : Progress)
      → let (r, s') = render_report v job_id plan snapshot s in
        (s'.provider_calls ≡ s.provider_calls) × Rendered r s.stored s'.stored
  unfolding render_report
  render_report-Rendered plan snapshot s = elim (Bool-cases (v.artifacts_exist job_id)) [
    | inl there ↦ rw there (refl, inl (there, refl))
    | inr fresh ↦ rw fresh (elim (Result-cases (v.compose_and_render plan snapshot)) [
      | inr (e, failed) ↦ rw failed (refl, inl refl)
      | inl (u, made) ↦ rw made (
          let first = report_key job_id "report.docx" in
          let second = report_key job_id "document.json" in
          let s1 : Progress = record s { stored = first ∷ s.stored } in
          let s2 : Progress = record s { stored = second ∷ first ∷ s.stored } in
          elim (upload_cases v first s) [
            | inr (inl (e, down)) ↦ rw down (refl, inl refl)
            | inr (inr (e, lost)) ↦ rw lost (refl, inr (inl refl))
            | inl up ↦ rw up (elim (upload_cases v second s1) [
              | inr (inl (e, down)) ↦ rw down (refl, inr (inl refl))
              | inr (inr (e, lost)) ↦ rw lost (refl, inr (inr (inl refl)))
              | inl up' ↦
                  rw up' (elim (upload_cases v (report_key job_id "document.screenshots.json") s2) [
                    | inr (inl (e, down)) ↦ rw down (refl, inr (inr (inl refl)))
                    | inr (inr (e, lost)) ↦ rw lost (refl, inr (inr (inr refl)))
                    | inl up'' ↦ rw up'' (refl, inr refl)
                  ])
            ])
          ])
    ])
  ]

  -- The plan stage.
  abbrev PlanStage : Result Json → List String → Type 0
  PlanStage (ok plan) stored = Base plan stored
  PlanStage (err e) stored =
      (stored ≡ [])
      ⊎ (stored ≡ plan_key ∷ [])
      ⊎ (stored ≡ artifact job_id "report-telemetry.json" ∷ plan_key ∷ [])

  kept_plan :
      (r plan : Json) (x : Result (Unit {0})) → keep v r x ≡ ok plan → (r ≡ plan) × (x ≡ ok tt)
  kept_plan r plan (ok tt) h = (cc, refl)
  kept_plan r plan (err e) h = cc

  Planned-PlanStage :
      (r : Result (Attempted Json Json)) (input : Json) (calls n : ℕ)
      → Planned (v.analyze input) (checked_plan v) calls r
      → let (r', s) =
          continue r
            (λ done.
              upload v plan_key
              >> (upload v (artifact job_id "report-telemetry.json") >> λ s. (ok done.output, s)))
            (record { provider_calls = n; stored = [] }) in
        (s.provider_calls ≡ n) × PlanStage r' s.stored
  Planned-PlanStage (err e) input calls n h = (refl, inl refl)
  Planned-PlanStage (ok a) input calls n (q, accepted) =
      let (same, valid) = kept_plan a.response a.output (v.check_plan a.response) accepted in
      let checked : v.check_plan a.output ≡ ok tt = rw (← same) valid in
      let s0 : Progress = record { provider_calls = n; stored = [] } in
      let s1 : Progress = record { provider_calls = n; stored = plan_key ∷ [] } in
      elim (upload_cases v plan_key s0) [
        | inr (inl (e, down)) ↦ rw down (refl, inl refl)
        | inr (inr (e, lost)) ↦ rw lost (refl, inr (inl refl))
        | inl up ↦ rw up (elim (upload_cases v (artifact job_id "report-telemetry.json") s1) [
          | inr (inl (e, down)) ↦ rw down (refl, inr (inl refl))
          | inr (inr (e, lost)) ↦ rw lost (refl, inr (inr refl))
          | inl up' ↦ rw up' (refl, (checked, inr refl))
        ])
      ]

  abbrev start : Progress
  start = record { provider_calls = 0; stored = [] }

  report_plan-PlanStage :
      (input : Json) (saved : Option Json)
      → v.saved_plan job_id ≡ saved
      → let (r, s) = report_plan v job_id input saved start in
        (s.provider_calls ≤ at_least_one v.max_output_attempts)
        × ((saved ≡ none) ⊎ (s.provider_calls ≡ 0))
        × PlanStage r s.stored
  unfolding report_plan
  report_plan-PlanStage input (some plan) q = elim (Result-cases (v.check_plan plan)) [
    | inr (e, bad) ↦ rw bad (omega arith, inr refl, inl refl)
    | inl (tt, good) ↦ rw good (omega arith, inr refl, (good, inl (q, refl)))
  ]
  report_plan-PlanStage input none q =
      let (r, calls) = daily_output (v.analyze input) (checked_plan v) v.max_output_attempts 0 in
      let (low, high, settled) =
        daily_output_bounded (v.analyze input) (checked_plan v) v.max_output_attempts in
      let (same, stage) = Planned-PlanStage r input calls (0 + calls) settled in
      (omega (arith, same, high), inl refl, stage)

  -- A checked plan, saved or stored first, and then a complete set of artifacts; after a raise, part of
  -- these in the same order.
  abbrev pub Reported : Result Json → List String → Type 0
  Reported (ok plan) stored = (base : List String) × Base plan base × Rendered (ok tt) base stored
  Reported (err e) stored =
      PlanStage (err e) stored
      ⊎ ((plan : Json) × (base : List String) × Base plan base × Rendered (err e) base stored)

  abbrev Outcome : Result Json × Progress → Type 0
  Outcome (r, s) =
      (s.provider_calls ≤ at_least_one v.max_output_attempts)
      × ((v.saved_plan job_id ≡ none) ⊎ (s.provider_calls ≡ 0))
      × Reported r s.stored

  Rendered-Reported :
      (plan : Json) (base : List String) (r : Result (Unit {0})) (s : Progress)
      → Base plan base
      → Rendered r base s.stored
      → let (r', s') = continue r (λ _ w. (ok plan, w)) s in
        (s'.provider_calls ≡ s.provider_calls) × Reported r' s'.stored
  Rendered-Reported plan base (ok tt) s b h = (refl, (base, b, h))
  Rendered-Reported plan base (err e) s b h = (refl, inr (plan, base, b, h))

  staged_Outcome :
      (snapshot : Json) (r : Result Json) (s : Progress)
      → s.provider_calls ≤ at_least_one v.max_output_attempts
      → (v.saved_plan job_id ≡ none) ⊎ (s.provider_calls ≡ 0)
      → PlanStage r s.stored
      → Outcome (continue r (λ plan. render_report v job_id plan snapshot >> (λ w. (ok plan, w))) s)
  staged_Outcome snapshot (err e) s bound once h = (bound, once, inl h)
  staged_Outcome snapshot (ok plan) s bound once h =
      let (r, s') = render_report v job_id plan snapshot s in
      let (same, rendered) = render_report-Rendered plan snapshot s in
      let (same', reported) = Rendered-Reported plan s.stored r s' h rendered in
      (
        omega (arith, bound, same, same'),
        elim once [ inl fresh ↦ inl fresh | inr z ↦ inr (same' ∙ same ∙ z) ],
        reported,
      )

  daily_report_of-Outcome : (ref : Fields) → Outcome (daily_report_of v job_id ref start)
  daily_report_of-Outcome ref = elim (Result-cases (v.download_snapshot ref)) [
    | inr (e, failed) ↦ rw failed (omega arith, inr refl, inl (inl refl))
    | inl (bytes, read) ↦ rw read (elim (Option-cases (v.loads bytes)) [
      | inl bad ↦ rw bad (omega arith, inr refl, inl (inl refl))
      | inr (snapshot, good) ↦ rw good (elim (Result-cases (v.report_input snapshot)) [
        | inr (e, failed) ↦ rw failed (omega arith, inr refl, inl (inl refl))
        | inl (input, made) ↦ rw made (
            let (r, s) = report_plan v job_id input (v.saved_plan job_id) start in
            let (bound, once, stage) = report_plan-PlanStage input (v.saved_plan job_id) refl in
            staged_Outcome snapshot r s bound once stage)
      ])
    ])
  ]

module _ (v : Services) (message : Fields) (job_id : String)
    (has_id : get "job_id" message ≡ some (str job_id)) where
  -- A daily report calls the provider at most as often as is configured (once where that is zero), and
  -- not at all where a saved plan of the job can be read. Where it returns, the plan passes the checks and
  -- is the saved one or stored before anything else, and a complete set of report artifacts was there or
  -- is stored after it. Where it raises, what is stored is the beginning of that sequence, which may be
  -- all of it: no report artifact is ever stored without its plan.
  pub process_daily_report_outcome :
      let (r, s) = process_daily_report v message (record { provider_calls = 0; stored = [] }) in
      (s.provider_calls ≤ at_least_one v.max_output_attempts)
      × ((v.saved_plan job_id ≡ none) ⊎ (s.provider_calls ≡ 0))
      × Reported v job_id r s.stored
  unfolding process_daily_report
  process_daily_report_outcome =
      elim (Bool-cases (has_text "daily_report" (get "job_type" message))) [
        | inr other ↦ rw other (omega arith, inr refl, inl (inl refl))
        | inl typed ↦
            rw typed (elim (Bool-cases (has_text "daily-alert-report" (get "skill_name" message))) [
              | inr other ↦ rw other (omega arith, inr refl, inl (inl refl))
              | inl skill ↦ rw skill (elim (Bool-cases (is_given (get "incident_id" message))) [
                | inl given ↦ rw given (omega arith, inr refl, inl (inl refl))
                | inr whole ↦
                    rw whole (elim (Option-cases (single_ref (get "object_refs" message))) [
                      | inl none_there ↦ rw none_there (omega arith, inr refl, inl (inl refl))
                      | inr (ref, there) ↦ rw there (elim (Result-cases (v.materialize message)) [
                        | inr (e, failed) ↦ rw failed (omega arith, inr refl, inl (inl refl))
                        | inl (u, made) ↦ rw (made, has_id) (daily_report_of-Outcome v job_id ref)
                      ])
                    ])
              ])
            ])
      ]
