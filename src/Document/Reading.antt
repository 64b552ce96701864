-- ===== src/Document/Reading.antt =====
-- The document of a declarative result: `build_report_document` and `_parse_blocks`
-- (bridge/noc_bridge/report_document.py). A call that raises is none. `str` and `int` of any JSON
-- value are arguments.
use text.Mathlib.Text.{◌==◌ as str_eq}
use noc_report.Common.{
  ℕ, zero, suc, String, Bool, true, false, Option, none, some, List, [], ◌∷◌, if◌then◌else◌,
}
use noc_report.Json.{
  Json, null, bool, num, str, arr, obj, Items, nil, cons, Fields, end, field, get, get_or_null,
  or_else, is_truthy,
}
use noc_report.Document.{
  Metadata, Link, LogFileReference, Screenshot, NavigationEntry, BilingualText, Find,
  BilingualFindList, IncidentEvidence, AnalysisReference, Block, Blocks, no_blocks, block,
  ReportDocument, heading, paragraph, divider, page_break, metadata, link, log_file_reference,
  screenshot, alert_navigation, bilingual_text, bilingual_find_list, find_list, incident_evidence,
  analysis_reference,
}

module _ {A B : Type 0} where
  infixl 5 ◌>>=◌
  abbrev pub ◌>>=◌ : Option A → (A → Option B) → Option B
  none >>= f = none
  some a >>= f = f a

module _ {A B : Type 0} where
  -- `tuple(f(x) for x in xs)`.
  abbrev pub each_of : (A → Option B) → List A → Option (List B)
  each_of f [] = some []
  each_of f (x ∷ xs) = do y ← f x; ys ← each_of f xs; some (y ∷ ys)

abbrev pub get_or : String → Json → Fields → Json
get_or k j d = elim (get k d) [ none ↦ j | some v ↦ v ]

abbrev pub list_of : Items → List Json
list_of nil = []
list_of (cons j js) = j ∷ list_of js

abbrev pub keys : Fields → List Json
keys end = []
keys (field k j d) = str k ∷ keys d

-- `for x in value`. A text that is not empty is iterated by its characters, which are texts; one
-- text stands for them, since no reader below accepts a text.
abbrev pub elements : Json → Option (List Json)
elements (arr js) = some (list_of js)
elements (obj d) = some (keys d)
elements (str s) = some (if str_eq s "" then [] else str s ∷ [])
elements _ = none

-- `tuple(f(x) for x in raw.get(k, []))`.
abbrev pub read_list : {A : Type 0} → (Json → Option A) → String → Fields → Option (List A)
read_list f k d = do xs ← elements (get_or k (arr nil) d); each_of f xs

unfoldable pub screenshot_from_dict : Json → Option Screenshot
screenshot_from_dict (obj d) = do
  bucket ← get "bucket" d
  object_key ← get "object_key" d
  some (record {
    bucket = bucket;
    object_key = object_key;
    filename = get_or_null "filename" d;
    version_id = get_or_null "version_id" d;
    sha256 = get_or_null "sha256" d;
    content_type = get_or_null "content_type" d;
    byte_size = get_or_null "byte_size" d;
  })
screenshot_from_dict _ = none

unfoldable pub parse_link : Json → Option Link
parse_link (obj d) = do
  label ← get "label" d
  url ← get "url" d
  some (record {
    label = label;
    url = url;
    text = get_or_null "text" d;
    prefix = get_or_null "prefix" d;
  })
parse_link _ = none

unfoldable pub parse_log_file_reference : Fields → Option LogFileReference
parse_log_file_reference d = do
  filename ← get "filename" d
  some (record { filename = filename; url = get_or_null "url" d })

-- The fields `link` and `log_file`, which may be missing.
abbrev pub parse_link_if : Bool → Json → Option (Option Link)
parse_link_if false j = some none
parse_link_if true j = do l ← parse_link j; some (some l)

abbrev pub parse_optional_log_file : Json → Option (Option LogFileReference)
parse_optional_log_file (obj d) = do l ← parse_log_file_reference d; some (some l)
parse_optional_log_file _ = some none

abbrev is_type : String → Fields → Bool
is_type kind d = elim (get_or_null "type" d) [ str s ↦ str_eq s kind | _ ↦ false ]

-- `parsed[0] if isinstance(parsed[0], BilingualText) else None`, and for BilingualFindList.
abbrev pub as_bilingual_text : Block → Option BilingualText
as_bilingual_text (bilingual_text b) = some b
as_bilingual_text _ = none

abbrev pub as_bilingual_find_list : Block → Option BilingualFindList
as_bilingual_find_list (bilingual_find_list b) = some b
as_bilingual_find_list _ = none

unfoldable pub blocks_of : List Block → Blocks
blocks_of [] = no_blocks
blocks_of (b ∷ bs) = block b (blocks_of bs)

module _ (py_str : Json → String) (py_int : Json → Option Json) where
  -- `str(x)`, and `str(x) if x is not None else None`.
  abbrev pub as_text : Json → Json
  as_text j = str (py_str j)

  abbrev pub as_text_or_none : Json → Json
  as_text_or_none null = null
  as_text_or_none j = as_text j

  unfoldable pub parse_metadata : Json → Option Metadata
  parse_metadata (obj d) = do
    label ← get "label" d
    value ← get "value" d
    some (record { label = as_text label; value = as_text value })
  parse_metadata _ = none

  unfoldable pub parse_entry : Json → Option NavigationEntry
  parse_entry (obj d) = do
    label ← get "text" d
    target ← get "target" d
    some (record { text = as_text label; target = as_text target })
  parse_entry _ = none

  unfoldable pub parse_find : Json → Option Find
  parse_find (obj d) = some (record {
    label = as_text (or_else (get_or_null "label" d) (str ""));
    detail = as_text_or_none (get_or_null "detail" d);
    stat = as_text_or_none (get_or_null "stat" d);
  })
  parse_find _ = none

  unfoldable pub parse_incident_evidence : Fields → Option IncidentEvidence
  parse_incident_evidence d = do
    head ← get "heading" d
    facts ← read_list parse_metadata "metadata" d
    front ← parse_link_if (is_truthy (get_or_null "link" d)) (get_or_null "link" d)
    links ← read_list parse_link "links" d
    log_file ← parse_optional_log_file (get_or_null "log_file" d)
    screenshots ← read_list screenshot_from_dict "screenshots" d
    some (record {
      heading = head;
      incident_id = get_or_null "incident_id" d;
      metadata = facts;
      link = front;
      links = links;
      log_file = log_file;
      screenshots = screenshots;
      navigation_target = get_or_null "navigation_target" d;
    })

  -- `raw.get("heading") or raw.get("label") or analysis_run_id or "Analysis"`.
  abbrev pub analysis_heading : Fields → Json
  analysis_heading d = as_text (
      or_else (get_or_null "heading" d) (
        or_else (get_or_null "label" d)
          (or_else (get_or_null "analysis_run_id" d) (str "Analysis"))))

  -- The blocks inside a block are read by `read`, which is `_parse_blocks` of one block.
  module _ (read : Json → Option Block) where
    abbrev pub parse_blocks : Json → Option Blocks
    parse_blocks raw = do xs ← elements raw; bs ← each_of read xs; some (blocks_of bs)

    abbrev pub parse_optional_block : {A : Type 0} → (Block → Option A) → Json → Option (Option A)
    parse_optional_block narrow (obj d) = do b ← read (obj d); some (narrow b)
    parse_optional_block narrow _ = some none

    unfoldable pub parse_analysis_reference : Fields → Option Block
    parse_analysis_reference d = do
      facts ← read_list parse_metadata "metadata" d
      provenance ← read_list parse_metadata "provenance" d
      children ← parse_blocks (get_or "children" (get_or "blocks" (arr nil) d) d)
      screenshots ← read_list screenshot_from_dict "screenshots" d
      log_file ← parse_optional_log_file (get_or_null "log_file" d)
      summary ← parse_optional_block as_bilingual_text (get_or_null "summary" d)
      key_finds ← parse_optional_block as_bilingual_find_list (get_or_null "key_finds" d)
      secondary_finds ←
          parse_optional_block as_bilingual_find_list (get_or_null "secondary_finds" d)
      likely_cause ← parse_optional_block as_bilingual_text (get_or_null "likely_cause" d)
      recommended_action ←
          parse_optional_block as_bilingual_text (get_or_null "recommended_action" d)
      let fields : AnalysisReference = record {
        heading = analysis_heading d;
        available = bool (is_truthy (get_or "available" (bool true) d));
        incident_id = as_text_or_none (get_or_null "incident_id" d);
        analysis_run_id = as_text_or_none (get_or_null "analysis_run_id" d);
        unavailable_text = get_or_null "unavailable_text" d;
        metadata = facts;
        provenance = provenance;
        screenshots = screenshots;
        log_file = log_file;
        summary = summary;
        key_finds = key_finds;
        secondary_finds = secondary_finds;
        likely_cause = likely_cause;
        recommended_action = recommended_action;
        bookmark = get_or_null "bookmark" d;
      }
      some (analysis_reference fields children)

    abbrev parse_heading : Fields → Option Block
    parse_heading d = do
      t ← get "text" d
      level ← py_int (get_or "level" (num 1) d)
      some (heading (record { text = t; level = level }))

    abbrev parse_paragraph : Fields → Option Block
    parse_paragraph d = do
      t ← get "text" d
      some (paragraph (record { text = t; style = get_or_null "style" d }))

    abbrev parse_bilingual_text : Fields → Block
    parse_bilingual_text d = bilingual_text (record {
      text_zh = get_or "zh" (str "") d;
      text_en = get_or "en" (str "") d;
      heading_zh = get_or_null "heading_zh" d;
      heading_en = get_or_null "heading_en" d;
    })

    abbrev parse_metadata_block : Fields → Option Block
    parse_metadata_block d = do
      label ← get "label" d
      value ← get "value" d
      some (metadata (record { label = label; value = as_text value }))

    abbrev parse_bilingual_find_list : Fields → Option Block
    parse_bilingual_find_list d = do
      zh ← get "heading_zh" d
      en ← get "heading_en" d
      finds_zh ← read_list parse_find "finds_zh" d
      finds_en ← read_list parse_find "finds_en" d
      some (
          bilingual_find_list (record {
            heading_zh = as_text zh;
            heading_en = as_text en;
            finds_zh = finds_zh;
            finds_en = finds_en;
          }))

    abbrev parse_find_list : Fields → Option Block
    parse_find_list d = do
      head ← get "heading" d
      finds ← read_list parse_find "finds" d
      some (
          find_list
            (record { heading = as_text head; finds = finds; language = get_or_null "language" d }))

    abbrev wrap : {A : Type 0} → (A → Block) → Option A → Option Block
    wrap f m = do a ← m; some (f a)

    -- One round of the loop over the raw blocks.
    unfoldable pub parse_raw : Fields → Option Block
    parse_raw d =
        if is_type "heading" d
        then parse_heading d
        else if is_type "paragraph" d
        then parse_paragraph d
        else if is_type "bilingual_text" d
        then some (parse_bilingual_text d)
        else if is_type "metadata" d
        then parse_metadata_block d
        else if is_type "link" d
        then wrap link (parse_link (obj d))
        else if is_type "log_file_reference" d
        then wrap log_file_reference (parse_log_file_reference d)
        else if is_type "screenshot" d
        then wrap screenshot (screenshot_from_dict (obj d))
        else if is_type "alert_navigation" d
        then wrap alert_navigation (read_list parse_entry "entries" d)
        else if is_type "bilingual_find_list" d
        then parse_bilingual_find_list d
        else if is_type "find_list" d
        then parse_find_list d
        else if is_type "incident_evidence" d
        then wrap incident_evidence (parse_incident_evidence d)
        else if is_type "divider" d
        then some divider
        else if is_type "page_break" d
        then some page_break
        else if is_type "analysis_reference" d
        then parse_analysis_reference d
        else none

  -- `_parse_blocks` of one block, on as many nested calls as the interpreter allows.
  unfoldable pub parse_block : ℕ → Json → Option Block
  parse_block zero raw = none
  parse_block (suc depth) (obj d) = parse_raw (parse_block depth) d
  parse_block (suc depth) _ = none

  -- The entries of a dict that are not `None`, without the key `skipped`.
  unfoldable pub present_metadata : Option String → Fields → List Metadata
  present_metadata skipped end = []
  present_metadata skipped (field k null d) = present_metadata skipped d
  present_metadata skipped (field k v d) =
      let rest = present_metadata skipped d in
      let kept = record { label = str k; value = as_text v } ∷ rest in
      elim skipped [ none ↦ kept | some j ↦ if str_eq k j then rest else kept ]

  -- `result.get(k) or {}`, which has to be a dict.
  abbrev dict_or_empty : Json → Option Fields
  dict_or_empty (obj d) = some d
  dict_or_empty j = if is_truthy j then none else some end

  unfoldable pub build_report_document : ℕ → Fields → Option ReportDocument
  build_report_document depth result = do
    raw_metadata ← dict_or_empty (get_or_null "metadata" result)
    raw_provenance ← dict_or_empty (get_or_null "provenance" result)
    blocks ← parse_blocks (parse_block depth) (get_or "blocks" (arr nil) result)
    some (record {
      title = get_or "title" (str "Report") raw_metadata;
      blocks = blocks;
      metadata = present_metadata (some "title") raw_metadata;
      provenance = present_metadata none raw_provenance;
    })
