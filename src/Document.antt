-- ===== src/Document.antt =====
-- The report document (bridge/noc_bridge/report_document.py): one record per dataclass. The
-- dataclasses do not check their fields, so a field holds any JSON value, and `None` is null. A
-- field that is itself an object of the module has its record as its type.
pub mod Preview
pub mod Descriptors
pub mod Depth
pub mod Reading
pub mod Numbering
pub mod Redaction
use noc_report.Common.{Option, List}
use noc_report.Json.{Json}

pub record Heading : Type 0 where
  pub text : Json
  pub level : Json

pub record Paragraph : Type 0 where
  pub text : Json
  pub style : Json

-- A single label and value.
pub record Metadata : Type 0 where
  pub label : Json
  pub value : Json

pub record Link : Type 0 where
  pub label : Json
  pub url : Json
  pub text : Json
  pub prefix : Json

pub record LogFileReference : Type 0 where
  pub filename : Json
  pub url : Json

pub record Screenshot : Type 0 where
  pub bucket : Json
  pub object_key : Json
  pub filename : Json
  pub version_id : Json
  pub sha256 : Json
  pub content_type : Json
  pub byte_size : Json

pub record NavigationEntry : Type 0 where
  pub text : Json
  pub target : Json

pub record BilingualText : Type 0 where
  pub text_zh : Json
  pub text_en : Json
  pub heading_zh : Json
  pub heading_en : Json

pub record Find : Type 0 where
  pub label : Json
  pub detail : Json
  pub stat : Json

pub record BilingualFindList : Type 0 where
  pub heading_zh : Json
  pub heading_en : Json
  pub finds_zh : List Find
  pub finds_en : List Find

pub record FindList : Type 0 where
  pub heading : Json
  pub finds : List Find
  pub language : Json

pub record IncidentEvidence : Type 0 where
  pub heading : Json
  pub incident_id : Json
  pub metadata : List Metadata
  pub link : Option Link
  pub links : List Link
  pub log_file : Option LogFileReference
  pub screenshots : List Screenshot
  pub navigation_target : Json

-- Its `children` stand beside it in the block.
pub record AnalysisReference : Type 0 where
  pub heading : Json
  pub available : Json
  pub incident_id : Json
  pub analysis_run_id : Json
  pub unavailable_text : Json
  pub metadata : List Metadata
  pub provenance : List Metadata
  pub screenshots : List Screenshot
  pub log_file : Option LogFileReference
  pub summary : Option BilingualText
  pub key_finds : Option BilingualFindList
  pub secondary_finds : Option BilingualFindList
  pub likely_cause : Option BilingualText
  pub recommended_action : Option BilingualText
  pub bookmark : Json

mutual
  pub data Block : Type 0 where
    heading : Heading → Block
    paragraph : Paragraph → Block
    divider : Block
    page_break : Block
    metadata : Metadata → Block
    link : Link → Block
    log_file_reference : LogFileReference → Block
    screenshot : Screenshot → Block
    alert_navigation : List NavigationEntry → Block
    bilingual_text : BilingualText → Block
    bilingual_find_list : BilingualFindList → Block
    find_list : FindList → Block
    incident_evidence : IncidentEvidence → Block
    analysis_reference : AnalysisReference → Blocks → Block

  pub data Blocks : Type 0 where
    no_blocks : Blocks
    block : Block → Blocks → Blocks

pub record ReportDocument : Type 0 where
  pub title : Json
  pub blocks : Blocks
  pub metadata : List Metadata
  pub provenance : List Metadata
