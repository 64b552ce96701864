-- ===== src/Composition/Authority.antt =====
-- Where the facts of a report come from: the frozen incidents of the snapshot.
use noc_report.Common.{◌≡◌, some}
use noc_report.Json.{Json, str, Fields}
use noc_report.Document.{IncidentEvidence}
use noc_report.Composition.{Library, incident_screenshots}
use noc_report.Composition.Plan.{Frozen, id_of}

-- The incident block is about this incident.
abbrev pub IsEvidence : Library → Fields → IncidentEvidence → Type 0
IsEvidence lib d b =
    (b.incident_id ≡ str (id_of lib d)) × (incident_screenshots d ≡ some b.screenshots)
