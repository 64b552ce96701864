-- ===== src/Composition/Compose.antt =====
-- `compose_report` (bridge/noc_bridge/report_composition.py), with the date of the report
-- (`project_shift_time`, bridge/noc_bridge/time_projection.py).
use Prim.Native.String.{◌++◌ as str_append}
use noc_report.Common.{
  ℕ, String, Bool, not, ◌&&◌, ◌||◌, Option, none, some, is_none, [], if◌then◌else◌,
}
use noc_report.Json.{Json, str, obj, Fields, get_or_null, or_else, is_truthy, has_key}
use noc_report.Document.{ReportDocument}
use noc_report.Document.Reading.{◌>>=◌}
use noc_report.Composition.{Library}
use noc_report.Composition.Plan.{Frozen, Parsed, frozen_incidents}
use noc_report.Composition.Select.{
  Policy, report_policy, parsed_plan, passes_checks, alert_incidents, analysis_incidents, numbers,
  analysis_blocks,
}
use noc_report.Composition.Layout.{targets, navigation, incident_blocks, layout, finished}

module _ (lib : Library) where
  -- `_parse_timestamp(value)`.
  unfoldable pub parse_timestamp : Json → Option ℕ
  parse_timestamp value =
      let text = lib.strip (lib.to_str (or_else value (str ""))) in
      elim (lib.before_z text) [
        | none ↦ lib.from_iso text
        | some start ↦ lib.from_iso (str_append start "+00:00")
      ]

  -- `project_shift_time(snapshot).report_date`. An end of the shift, where there is one, has to be a
  -- time too.
  unfoldable pub report_date : Fields → Option String
  report_date snapshot =
      let zone =
        lib.strip (lib.to_str (or_else (get_or_null "shift_timezone" snapshot) (str "UTC"))) in
      let starts = get_or_null "shift_starts_at" snapshot in
      let ends = get_or_null "shift_ends_at" snapshot in
      let end_time = parse_timestamp ends in
      if not (lib.is_zone zone) || not (is_truthy starts)
      then none
      else if is_truthy ends && is_none end_time
      then none
      else do start_time ← parse_timestamp starts; some (lib.day_in_zone zone start_time)

  -- The composition of what the plan and the snapshot were read as.
  unfoldable pub composed : Policy → Bool → Frozen → Parsed → Fields → Option ReportDocument
  composed policy narrative frozen s snapshot = do
    alerts ← alert_incidents policy frozen s
    analysed ← analysis_incidents policy frozen s
    analyses ← analysis_blocks lib narrative s (numbers lib 1 alerts []) 1 analysed
    let known = targets analyses []
    evidence ← incident_blocks lib policy.canonical known 1 alerts
    day ← report_date snapshot
    some (
        finished lib snapshot day
          (layout (navigation lib known 1 alerts) evidence s.summary analyses))

  unfoldable pub compose_report : Json → Fields → Option ReportDocument
  compose_report (obj plan) snapshot = do
    policy ← report_policy snapshot
    frozen ← frozen_incidents lib snapshot
    s ← parsed_plan lib policy frozen plan
    let narrative = has_key "general_summary" plan
    let document = composed policy narrative frozen s snapshot
    if passes_checks lib policy narrative frozen s then document else none
  compose_report _ snapshot = none
