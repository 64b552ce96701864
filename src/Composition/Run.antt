-- ===== src/Composition/Run.antt =====
-- What a composition that returned went through.
use noc_report.Common.{
  ◌≡◌, refl, arith, String, Bool, true, false, Option, none, some, List, [], if◌then◌else◌,
}
use noc_report.Json.{obj, Fields, has_key}
use noc_report.Document.{IncidentEvidence, AnalysisReference, Blocks, ReportDocument}
use noc_report.Document.Reading.{◌>>=◌}
use noc_report.Composition.{Library}
use noc_report.Composition.Plan.{Frozen, Parsed, frozen_incidents}
use noc_report.Composition.Select.{
  Policy, report_policy, parsed_plan, passes_checks, alert_incidents, analysis_incidents, numbers,
  analysis_blocks,
}
use noc_report.Composition.Layout.{targets, navigation, incident_blocks, layout, finished}
use noc_report.Composition.Compose.{report_date, composed, compose_report}

pub >>=-some :
    {A B : Type 0} (m : Option A) (f : A → Option B) (b : B)
    → (m >>= f) ≡ some b
    → (a : A) × (m ≡ some a) × (f a ≡ some b)
>>=-some none f b h = absurd (ground arith)
>>=-some (some a) f b h = (a, refl, h)

pub if-some :
    {A : Type 0} (c : Bool) (m : Option A) (a : A)
    → (if c then m else none) ≡ some a
    → (c ≡ true) × (m ≡ some a)
if-some true m a h = (refl, h)
if-some false m a h = absurd (ground arith)

pub some-same : {A : Type 0} (a b : A) → some a ≡ some b → a ≡ b
some-same a b e = ground (arith, e)

pub if-true : {A : Type 0} {c : Bool} (m n : A) → c ≡ true → (if c then m else n) ≡ m
if-true {c = true} m n h = refl
if-true {c = false} m n h = absurd (ground (arith, h))

pub record Run (lib : Library) (plan : Fields) (snapshot : Fields) (doc : ReportDocument)
    : Type 0 where
  pub policy : Policy
  pub frozen : Frozen
  pub parsed : Parsed
  pub alerts : List Fields
  pub analysed : List Fields
  pub analyses : List (AnalysisReference × Blocks)
  pub evidence : List IncidentEvidence
  pub day : String
  pub policy_read : report_policy snapshot ≡ some policy
  pub frozen_read : frozen_incidents lib snapshot ≡ some frozen
  pub plan_read : parsed_plan lib policy frozen plan ≡ some parsed
  pub checks : passes_checks lib policy (has_key "general_summary" plan) frozen parsed ≡ true
  pub alerts_read : alert_incidents policy frozen parsed ≡ some alerts
  pub analysed_read : analysis_incidents policy frozen parsed ≡ some analysed
  pub analyses_read :
      analysis_blocks lib
        (has_key "general_summary" plan)
        parsed
        (numbers lib 1 alerts [])
        1
        analysed
      ≡ some analyses
  pub evidence_read :
      incident_blocks lib policy.canonical (targets analyses []) 1 alerts ≡ some evidence
  pub document :
      finished lib snapshot day
        (layout (navigation lib (targets analyses []) 1 alerts) evidence parsed.summary analyses)
      ≡ doc

pub compose_report-Run :
    (lib : Library) (plan snapshot : Fields) (doc : ReportDocument)
    → compose_report lib (obj plan) snapshot ≡ some doc
    → Run lib plan snapshot doc
unfolding compose_report composed
compose_report-Run lib plan snapshot doc h =
    let (policy, p, h1) = >>=-some (report_policy snapshot) _ doc h in
    let (frozen, f, h2) = >>=-some (frozen_incidents lib snapshot) _ doc h1 in
    let (parsed, r, h3) = >>=-some (parsed_plan lib policy frozen plan) _ doc h2 in
    let narrative = has_key "general_summary" plan in
    let (c, h4) =
      if-some (passes_checks lib policy narrative frozen parsed)
        (composed lib policy narrative frozen parsed snapshot) doc h3 in
    let (alerts, a, h5) = >>=-some (alert_incidents policy frozen parsed) _ doc h4 in
    let (analysed, n, h6) = >>=-some (analysis_incidents policy frozen parsed) _ doc h5 in
    let known = numbers lib 1 alerts [] in
    let (analyses, b, h7) =
      >>=-some (analysis_blocks lib narrative parsed known 1 analysed) _ doc h6 in
    let (evidence, e, h8) =
      >>=-some (incident_blocks lib policy.canonical (targets analyses []) 1 alerts) _ doc h7 in
    let (day, d, h9) = >>=-some (report_date lib snapshot) _ doc h8 in
    record {
      policy = policy;
      frozen = frozen;
      parsed = parsed;
      alerts = alerts;
      analysed = analysed;
      analyses = analyses;
      evidence = evidence;
      day = day;
      policy_read = p;
      frozen_read = f;
      plan_read = r;
      checks = c;
      alerts_read = a;
      analysed_read = n;
      analyses_read = b;
      evidence_read = e;
      document = ground arith;
    }
