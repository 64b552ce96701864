-- ===== src/Worker/Process/Analysis.antt =====
-- What the analysis of a log leaves.
use noc_report.Common.{
  ℕ, ◌+◌, ◌≤◌, String, ◌≡◌, refl, ◌⊎◌, inl, inr, some, List, [], ◌∷◌, arith, Option-cases,
  Bool-cases,
}
use noc_report.Json.{Json, str, Fields, get}
use noc_report.Result.{Result, Result-cases, continue, ok, err, ◌>>◌}
use noc_report.Worker.Attempts.{Attempted, at_least_one, triage_output}
use noc_report.Worker.Attempts.Outputs.{Analysed, triage_output_bounded}
use noc_report.Worker.Evidence.{LogRow, incident_and_evidence}
use noc_report.Worker.Evidence.Frozen.{IsNamed, incident_and_evidence_frozen}
use noc_report.Worker.Process.Stored.{upload_cases}
use noc_report.Worker.Process.{
  Progress, Services, artifact, upload, has_text, analyse_log, process_log_triage,
}

abbrev pub Raised : Result Json → Type 0
Raised (ok output) = ⊥
Raised (err e) = Unit

module _ (v : Services) where
  -- The statistics that are made of a log.
  abbrev pub Statistics : LogRow → Json → Type 0
  Statistics log statistics =
      (bytes : List ℕ) × (text : String) × (v.download_log log ≡ ok bytes)
      × (v.decode_utf8 bytes ≡ some text)
      × (v.preprocess text ≡ ok statistics)

  -- How many calls the attempts on some statistics make.
  abbrev pub calls_on : Json → ℕ
  calls_on statistics =
      (triage_output (v.analyze statistics) (v.check_analysis statistics) (v.fallback statistics)
        v.max_output_attempts 0).1

  module _ (job_id : String) where
    -- An output was accepted for the statistics, and both artifacts are stored, the result first; or
    -- the processor raised, with any first part of these stored.
    abbrev pub Done : Json → Result Json → List String → Type 0
    Done statistics (ok output) stored =
        ((response : Json) × ((v.check_analysis statistics response ≡ ok output)
            ⊎ (v.fallback statistics response ≡ ok output)))
        × (stored ≡ artifact job_id "telemetry.json" ∷ artifact job_id "result.json" ∷ [])
    Done statistics (err e) stored =
        (stored ≡ [])
        ⊎ (stored ≡ artifact job_id "result.json" ∷ [])
        ⊎ (stored ≡ artifact job_id "telemetry.json" ∷ artifact job_id "result.json" ∷ [])

    two_uploads_Done :
        (statistics output : Json) (n : ℕ)
        → ((response : Json) × ((v.check_analysis statistics response ≡ ok output)
              ⊎ (v.fallback statistics response ≡ ok output)))
        → let (r, s) =
            (upload v (artifact job_id "result.json")
                >> (upload v (artifact job_id "telemetry.json") >> λ s. (ok output, s)))
              (record { provider_calls = n; stored = [] }) in
          (s.provider_calls ≡ n) × Done statistics r s.stored
    two_uploads_Done statistics output n good =
        let s0 : Progress = record { provider_calls = n; stored = [] } in
        let s1 : Progress = record s0 { stored = artifact job_id "result.json" ∷ [] } in
        elim (upload_cases v (artifact job_id "result.json") s0) [
          | inr (inl (e, down)) ↦ rw down (refl, inl refl)
          | inr (inr (e, lost)) ↦ rw lost (refl, inr (inl refl))
          | inl up ↦ rw up (elim (upload_cases v (artifact job_id "telemetry.json") s1) [
            | inr (inl (e, down)) ↦ rw down (refl, inr (inl refl))
            | inr (inr (e, lost)) ↦ rw lost (refl, inr (inr refl))
            | inl up' ↦ rw up' (refl, (good, refl))
          ])
        ]

    abbrev start : Progress
    start = record { provider_calls = 0; stored = [] }

    -- The attempts were made on the statistics, as many as these take.
    abbrev Ran : Json → Result Json × Progress → Type 0
    Ran statistics (r, s) = (s.provider_calls ≡ calls_on statistics) × Done statistics r s.stored

    Analysed-Ran :
        (statistics : Json) (r : Result (Attempted Json Json)) (calls : ℕ)
        → calls ≡ calls_on statistics
        → Analysed
            (v.analyze statistics)
            (v.check_analysis statistics)
            (v.fallback statistics)
            calls
            r
        → Ran statistics (
            continue r
              (λ done.
                upload v (artifact job_id "result.json")
                >> (upload v (artifact job_id "telemetry.json") >> λ s. (ok done.output, s)))
              (record { provider_calls = 0 + calls; stored = [] }))
    Analysed-Ran statistics (err e) calls n h = (omega (arith, n), inl refl)
    Analysed-Ran statistics (ok a) calls n (q, accepted) =
        let (same, done) =
          two_uploads_Done statistics a.output (0 + calls) (a.response, accepted) in
        (omega (arith, same, n), done)

    -- Nothing was called or stored and it raised, or the attempts ran on the statistics of the log.
    abbrev Analysis : LogRow → Result Json × Progress → Type 0
    Analysis log (r, s) =
        ((s.provider_calls ≡ 0) × (s.stored ≡ []) × Raised r)
        ⊎ ((statistics : Json) × Statistics log statistics × Ran statistics (r, s))

    analyse_log-Analysis : (log : LogRow) → Analysis log (analyse_log v job_id log start)
    unfolding analyse_log
    analyse_log-Analysis log = elim (Result-cases (v.download_log log)) [
      | inr (e, failed) ↦ rw failed (inl (refl, refl, tt))
      | inl (bytes, read) ↦ rw read (elim (Option-cases (v.decode_utf8 bytes)) [
        | inl bad ↦ rw bad (inl (refl, refl, tt))
        | inr (text, good) ↦ rw good (elim (Result-cases (v.preprocess text)) [
          | inr (e, failed) ↦ rw failed (inl (refl, refl, tt))
          | inl (statistics, made) ↦ rw made (
              let (r, calls) =
                triage_output (v.analyze statistics) (v.check_analysis statistics)
                  (v.fallback statistics) v.max_output_attempts 0 in
              let (low, high, settled) =
                triage_output_bounded (v.analyze statistics) (v.check_analysis statistics)
                  (v.fallback statistics) v.max_output_attempts in
              inr (
                statistics,
                (bytes, text, refl, good, made),
                Analysed-Ran statistics r calls refl settled,
              ))
        ])
      ])
    ]

module _ (v : Services) (message : Fields) where
  -- Where a log analysis calls the provider, returns or stores anything, there is a row of the evidence
  -- table, an active log that the message names, and statistics that were made of the text of that log;
  -- the provider is called as often as the attempts on these statistics take, which is at most the
  -- configured number (once where that is zero). Where it returns, the output was accepted by the checks
  -- against these statistics or by the checked fallback, and the result and then the telemetry are stored
  -- under the keys of the job; where it raises, a first part of this, which may be all of it.
  pub process_log_triage_outcome :
      (job_id : String)
      → get "job_id" message ≡ some (str job_id)
      → let (r, s) = process_log_triage v message (record { provider_calls = 0; stored = [] }) in
        ((s.provider_calls ≡ 0) × (s.stored ≡ []) × Raised r)
        ⊎ ((log : LogRow) × (statistics : Json) × IsNamed v.incidents v.evidence_rows message log
            × Statistics v log statistics
            × (s.provider_calls ≡ calls_on v statistics)
            × (s.provider_calls ≤ at_least_one v.max_output_attempts)
            × Done v job_id statistics r s.stored)
  unfolding process_log_triage
  process_log_triage_outcome job_id has_id =
      elim (Bool-cases (has_text "log_triage" (get "job_type" message))) [
        | inr other ↦ rw other (inl (refl, refl, tt))
        | inl typed ↦
            rw typed (elim (Bool-cases (has_text "log-triage-summary" (get "skill_name" message))) [
              | inr other ↦ rw other (inl (refl, refl, tt))
              | inl skill ↦
                  rw skill
                    (elim (Result-cases
                      (incident_and_evidence v.incidents v.evidence_rows message)) [
                        | inr (e, refused) ↦ rw refused (inl (refl, refl, tt))
                        | inl ((incident, log), verified) ↦
                            rw verified (elim (Result-cases (v.materialize message)) [
                              | inr (e, failed) ↦ rw failed (inl (refl, refl, tt))
                              | inl (u, made) ↦
                                  rw (made, has_id)
                                    (elim (analyse_log-Analysis v job_id log) [
                                      | inl idle ↦ inl idle
                                      | inr (statistics, of_log, ran) ↦
                                          let named =
                                            incident_and_evidence_frozen v.incidents v.evidence_rows
                                              message incident log verified in
                                          let (low, high, settled) =
                                            triage_output_bounded (v.analyze statistics)
                                              (v.check_analysis statistics) (v.fallback statistics)
                                              v.max_output_attempts in
                                          inr (
                                            log,
                                            statistics,
                                            named,
                                            of_log,
                                            ran.0,
                                            omega (arith, ran.0, high),
                                            ran.1,
                                          )
                                    ])
                            ])
                      ])
            ])
      ]
