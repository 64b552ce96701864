-- ===== src/Document/Redaction.antt =====
-- What the preview of a document shows of its private facts: nothing of where a screenshot is stored,
-- of which incident or run a block stands for, and of the provenance.
use noc_report.Common.{◌≡◌, refl, ap, suc, false, List, [], ◌∷◌, ◌++◌, length}
use noc_report.Json.{null, Fields}
use noc_report.Document.{
  Screenshot, IncidentEvidence, AnalysisReference, Block, Blocks, no_blocks, block, ReportDocument,
  heading, paragraph, divider, page_break, metadata, link, log_file_reference, screenshot,
  alert_navigation, bilingual_text, bilingual_find_list, find_list, incident_evidence,
  analysis_reference,
}
use noc_report.Document.Preview.{
  screenshot_json, screenshots_json, evidence_json, analysis_json, provenance_json, block_to_json,
  blocks_to_json, document_to_preview_json,
}

-- A screenshot of which only the file's name is left.
abbrev pub screenshot_without : Screenshot → Screenshot
screenshot_without s = record s {
  bucket = null;
  object_key = null;
  version_id = null;
  sha256 = null;
  content_type = null;
  byte_size = null;
}

abbrev pub screenshots_without : List Screenshot → List Screenshot
screenshots_without [] = []
screenshots_without (s ∷ ss) = screenshot_without s ∷ screenshots_without ss

abbrev pub evidence_without : IncidentEvidence → IncidentEvidence
evidence_without b = record b {
  incident_id = null;
  screenshots = screenshots_without b.screenshots;
}

abbrev pub analysis_without : AnalysisReference → AnalysisReference
analysis_without b = record b {
  incident_id = null;
  analysis_run_id = null;
  metadata = [];
  provenance = [];
  screenshots = screenshots_without b.screenshots;
}

unfoldable mutual
  pub block_without : Block → Block
  block_without (screenshot b) = screenshot (screenshot_without b)
  block_without (incident_evidence b) = incident_evidence (evidence_without b)
  block_without (analysis_reference b children) =
      analysis_reference (analysis_without b) (blocks_without children)
  block_without b = b

  pub blocks_without : Blocks → Blocks
  blocks_without no_blocks = no_blocks
  blocks_without (block b bs) = block (block_without b) (blocks_without bs)

-- The document without its private facts.
unfoldable pub without_private : ReportDocument → ReportDocument
without_private d = record d { blocks = blocks_without d.blocks; provenance = [] }

length-snoc : {A : Type 0} (xs : List A) (x : A) → length (xs ++ (x ∷ [])) ≡ suc (length xs)
length-snoc [] x = refl
length-snoc (y ∷ xs) x = ap suc (length-snoc xs x)

-- The same JSON, and as many screenshots taken.
abbrev Same : {A : Type 0} → A × List Fields → A × List Fields → Type 0
Same a b = (a.0 ≡ b.0) × (length a.1 ≡ length b.1)

screenshot_json-without :
    (s : Screenshot) (t u : List Fields)
    → length t ≡ length u
    → Same (screenshot_json (screenshot_without s) t) (screenshot_json s u)
unfolding screenshot_json
screenshot_json-without s t u e = (rw e refl, rw (length-snoc t, length-snoc u, e) refl)

screenshots_json-without :
    (ss : List Screenshot) (t u : List Fields)
    → length t ≡ length u
    → Same (screenshots_json (screenshots_without ss) t) (screenshots_json ss u)
unfolding screenshots_json
screenshots_json-without [] t u e = (refl, e)
screenshots_json-without (s ∷ ss) t u e =
    let first = screenshot_json-without s t u e in
    let rest =
      screenshots_json-without ss (screenshot_json (screenshot_without s) t).1
        (screenshot_json s u).1 first.1 in
    (rw (first.0, rest.0) refl, rest.1)

mutual
  unfolding block_to_json block_without screenshot_json evidence_json analysis_json provenance_json

  block_to_json-without :
      (b : Block) (t u : List Fields)
      → length t ≡ length u
      → Same (block_to_json false (block_without b) t) (block_to_json false b u)
  block_to_json-without (screenshot b) t u e = screenshot_json-without b t u e
  block_to_json-without (incident_evidence b) t u e =
      let shots = screenshots_json-without b.screenshots t u e in (rw shots.0 refl, shots.1)
  block_to_json-without (analysis_reference b children) t u e =
      let inner = blocks_to_json-without children t u e in
      let shots =
        screenshots_json-without b.screenshots (blocks_to_json false (blocks_without children) t).1
          (blocks_to_json false children u).1 inner.1 in
      (rw (inner.0, shots.0) refl, shots.1)
  block_to_json-without (heading b) t u e = (refl, e)
  block_to_json-without (paragraph b) t u e = (refl, e)
  block_to_json-without divider t u e = (refl, e)
  block_to_json-without page_break t u e = (refl, e)
  block_to_json-without (metadata b) t u e = (refl, e)
  block_to_json-without (link b) t u e = (refl, e)
  block_to_json-without (log_file_reference b) t u e = (refl, e)
  block_to_json-without (alert_navigation b) t u e = (refl, e)
  block_to_json-without (bilingual_text b) t u e = (refl, e)
  block_to_json-without (bilingual_find_list b) t u e = (refl, e)
  block_to_json-without (find_list b) t u e = (refl, e)

  blocks_to_json-without :
      (bs : Blocks) (t u : List Fields)
      → length t ≡ length u
      → Same (blocks_to_json false (blocks_without bs) t) (blocks_to_json false bs u)
  blocks_to_json-without no_blocks t u e = (refl, e)
  blocks_to_json-without (block b bs) t u e =
      let first = block_to_json-without b t u e in
      let rest =
        blocks_to_json-without bs (block_to_json false (block_without b) t).1
          (block_to_json false b u).1 first.1 in
      (rw (first.0, rest.0) refl, rest.1)

-- The payload of the preview is the same when every screenshot has lost its bucket, object key,
-- version, hash, type and size, every incident and analysis block the ids of its incident and its
-- run, every analysis its metadata and provenance, and the document its provenance.
pub preview-without_private :
    (d : ReportDocument)
    → (document_to_preview_json (without_private d)).0 ≡ (document_to_preview_json d).0
unfolding document_to_preview_json without_private
preview-without_private d = rw (blocks_to_json-without d.blocks [] [] refl).0 refl
