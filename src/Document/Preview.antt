-- ===== src/Document/Preview.antt =====
-- The JSON of a document (bridge/noc_bridge/report_document_json.py). The list of screenshots that
-- `_block_to_json` extends is passed on, and comes back with the JSON.
use noc_report.Common.{
  Option, none, some, String, Bool, true, false, List, [], ◌∷◌, ◌++◌, length, if◌then◌else◌,
}
use noc_report.Json.{Json, null, num, str, arr, obj, Items, nil, cons, Fields, end, field}
use noc_report.Document.{
  Metadata, Link, LogFileReference, Screenshot, NavigationEntry, BilingualText, Find,
  BilingualFindList, FindList, IncidentEvidence, AnalysisReference, Block, Blocks, no_blocks, block,
  ReportDocument, heading, paragraph, divider, page_break, metadata, link, log_file_reference,
  screenshot, alert_navigation, bilingual_text, bilingual_find_list, find_list, incident_evidence,
  analysis_reference,
}

-- `{"type": kind, …}`.
abbrev pub typed : String → Fields → Json
typed kind d = obj (field "type" (str kind) d)

-- `[f(x) for x in xs]` and `f(x) if x else None`, where f leaves the screenshots alone.
abbrev pub each : {A : Type 0} → (A → Json) → List A → Items
each f [] = nil
each f (x ∷ xs) = cons (f x) (each f xs)

abbrev pub or_null : {A : Type 0} → (A → Json) → Option A → Json
or_null f none = null
or_null f (some x) = f x

unfoldable pub metadata_json : Metadata → Json
metadata_json m = typed "metadata" (field "label" m.label (field "value" m.value end))

unfoldable pub link_json : Link → Json
link_json l =
    typed "link" (
      field "label" l.label (field "prefix" l.prefix (field "url" l.url (field "text" l.text end))))

unfoldable pub log_file_json : LogFileReference → Json
log_file_json l = typed "log_file_reference" (field "filename" l.filename (field "url" l.url end))

unfoldable pub entry_json : NavigationEntry → Json
entry_json e = obj (field "text" e.text (field "target" e.target end))

unfoldable pub bilingual_json : BilingualText → Json
bilingual_json b = typed "bilingual_text" (
    field "text_zh" b.text_zh (
      field "text_en" b.text_en
        (field "heading_zh" b.heading_zh (field "heading_en" b.heading_en end))))

unfoldable pub find_to_json : Find → Json
find_to_json f = obj (field "label" f.label (field "detail" f.detail (field "stat" f.stat end)))

unfoldable pub bilingual_finds_json : BilingualFindList → Json
bilingual_finds_json b = typed "bilingual_find_list" (
    field "heading_zh" b.heading_zh (
      field "heading_en" b.heading_en (
        field "finds_zh" (arr (each find_to_json b.finds_zh))
          (field "finds_en" (arr (each find_to_json b.finds_en)) end))))

unfoldable pub finds_json : FindList → Json
finds_json b = typed "find_list" (
    field "heading" b.heading
      (field "language" b.language (field "finds" (arr (each find_to_json b.finds)) end)))

abbrev pub is_null : Json → Bool
is_null null = true
is_null _ = false

-- `{key: value for key, value in entries if value is not None}`.
unfoldable pub present : List (String × Json) → Fields
present [] = end
present ((k, v) ∷ es) = let rest = present es in if is_null v then rest else field k v rest

abbrev pub screenshot_entries : Screenshot → List (String × Json)
screenshot_entries s =
    ("bucket", s.bucket)
    ∷ ("object_key", s.object_key)
    ∷ ("filename", s.filename)
    ∷ ("version_id", s.version_id)
    ∷ ("sha256", s.sha256)
    ∷ ("content_type", s.content_type)
    ∷ ("byte_size", s.byte_size)
    ∷ []

-- What the private list holds of a screenshot: its fields that are not `None`.
unfoldable pub descriptor : Screenshot → Fields
descriptor s = present (screenshot_entries s)

unfoldable pub screenshot_json : Screenshot → List Fields → Json × List Fields
screenshot_json s taken = (
  typed "screenshot" (field "index" (num (length taken)) (field "filename" s.filename end)),
  taken ++ (descriptor s ∷ []),
)

unfoldable pub screenshots_json : List Screenshot → List Fields → Items × List Fields
screenshots_json [] taken = (nil, taken)
screenshots_json (s ∷ ss) taken =
    let (j, taken') = screenshot_json s taken in
    let (js, taken'') = screenshots_json ss taken' in (cons j js, taken'')

-- `links` with `block.link` in front.
abbrev pub all_links : Option Link → List Link → List Link
all_links none ls = ls
all_links (some l) ls = l ∷ ls

-- The JSON of an incident, from the JSON of its screenshots.
unfoldable pub evidence_json : Bool → IncidentEvidence → Items → Json
evidence_json include_provenance b shots = typed "incident_evidence" (
    field "heading" b.heading (
      field "incident_id" (if include_provenance then b.incident_id else null) (
        field "metadata" (arr (each metadata_json b.metadata)) (
          field "links" (arr (each link_json (all_links b.link b.links))) (
            field "log_file" (or_null log_file_json b.log_file) (
              field "screenshots" (arr shots)
                (field "navigation_target" b.navigation_target end)))))))

-- What `include_provenance` adds at the end.
unfoldable pub provenance_json : Bool → AnalysisReference → Fields
provenance_json false b = end
provenance_json true b = field "analysis_run_id" b.analysis_run_id (
    field "metadata" (arr (each metadata_json b.metadata))
      (field "provenance" (arr (each metadata_json b.provenance)) end))

-- The JSON of an analysis, from the JSON of its children and of its screenshots.
unfoldable pub analysis_json : Bool → AnalysisReference → Items → Items → Json
analysis_json include_provenance b children shots = typed "analysis_reference" (
    field "heading" b.heading (
      field "available" b.available (
        field "incident_id" (if include_provenance then b.incident_id else null) (
          field "unavailable_text" b.unavailable_text (
            field "children" (arr children) (
              field "screenshots" (arr shots) (
                field "log_file" (or_null log_file_json b.log_file) (
                  field "summary" (or_null bilingual_json b.summary) (
                    field "key_finds" (or_null bilingual_finds_json b.key_finds) (
                      field "secondary_finds" (or_null bilingual_finds_json b.secondary_finds) (
                        field "likely_cause" (or_null bilingual_json b.likely_cause) (
                          field "recommended_action" (or_null bilingual_json b.recommended_action) (
                            field "bookmark" b.bookmark
                              (provenance_json include_provenance b))))))))))))))

unfoldable mutual
  pub block_to_json : Bool → Block → List Fields → Json × List Fields
  block_to_json p (heading b) taken =
      (typed "heading" (field "text" b.text (field "level" b.level end)), taken)
  block_to_json p (paragraph b) taken =
      (typed "paragraph" (field "text" b.text (field "style" b.style end)), taken)
  block_to_json p divider taken = (typed "divider" end, taken)
  block_to_json p page_break taken = (typed "page_break" end, taken)
  block_to_json p (metadata b) taken = (metadata_json b, taken)
  block_to_json p (link b) taken = (link_json b, taken)
  block_to_json p (log_file_reference b) taken = (log_file_json b, taken)
  block_to_json p (screenshot b) taken = screenshot_json b taken
  block_to_json p (alert_navigation es) taken =
      (typed "alert_navigation" (field "entries" (arr (each entry_json es)) end), taken)
  block_to_json p (bilingual_text b) taken = (bilingual_json b, taken)
  block_to_json p (bilingual_find_list b) taken = (bilingual_finds_json b, taken)
  block_to_json p (find_list b) taken = (finds_json b, taken)
  block_to_json p (incident_evidence b) taken =
      let (ss, taken') = screenshots_json b.screenshots taken in (evidence_json p b ss, taken')
  block_to_json p (analysis_reference b children) taken =
      let (js, taken') = blocks_to_json p children taken in
      let (ss, taken'') = screenshots_json b.screenshots taken' in
      (analysis_json p b js ss, taken'')

  pub blocks_to_json : Bool → Blocks → List Fields → Items × List Fields
  blocks_to_json p no_blocks taken = (nil, taken)
  blocks_to_json p (block b bs) taken =
      let (j, taken') = block_to_json p b taken in
      let (js, taken'') = blocks_to_json p bs taken' in (cons j js, taken'')

-- The payload for the browser, and the private list of screenshots.
unfoldable pub document_to_preview_json : ReportDocument → Json × List Fields
document_to_preview_json d =
    let (js, taken) = blocks_to_json false d.blocks [] in
    (
      obj (
          field "title" d.title
            (field "metadata" (arr (each metadata_json d.metadata)) (field "blocks" (arr js) end))),
      taken,
    )

-- A list of dicts as JSON.
abbrev pub dicts : List Fields → Items
dicts [] = nil
dicts (d ∷ ds) = cons (obj d) (dicts ds)

unfoldable pub document_to_audit_json : ReportDocument → Json
document_to_audit_json d =
    let (js, taken) = blocks_to_json true d.blocks [] in
    obj (
      field "title" d.title (
        field "metadata" (arr (each metadata_json d.metadata)) (
          field "provenance" (arr (each metadata_json d.provenance))
            (field "blocks" (arr js) (field "screenshots" (arr (dicts taken)) end)))))
