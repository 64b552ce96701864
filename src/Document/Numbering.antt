-- ===== src/Document/Numbering.antt =====
-- The numbers of the screenshots in the payload, against the private list that they index.
use noc_report.Common.{
  ◌≡◌, refl, sym, ap, ◌∙◌, arith, ℕ, suc, ◌+◌, String, Bool, false, ◌||◌, Option, some, List, [],
  ◌∷◌, ◌++◌, length, if◌then◌else◌,
}
use text.Mathlib.Text.{◌==◌ as str_eq}
use noc_report.Json.{
  Json, num, str, arr, obj, Items, nil, cons, Fields, end, field, get, get_or_null,
}
use noc_report.Document.{
  Screenshot, Block, Blocks, no_blocks, block, ReportDocument, heading, paragraph, divider,
  page_break, metadata, link, log_file_reference, screenshot, alert_navigation, bilingual_text,
  bilingual_find_list, find_list, incident_evidence, analysis_reference,
}
use noc_report.Document.Descriptors.{filename-descriptor}
use noc_report.Document.Preview.{
  descriptor, metadata_json, link_json, log_file_json, bilingual_json, bilingual_finds_json,
  finds_json, screenshot_json, screenshots_json, evidence_json, analysis_json, provenance_json,
  block_to_json, blocks_to_json, document_to_preview_json,
}

-- The screenshots of a document, in its order.
unfoldable mutual
  pub screenshots_of : Block → List Screenshot
  screenshots_of (screenshot b) = b ∷ []
  screenshots_of (incident_evidence b) = b.screenshots
  screenshots_of (analysis_reference b children) = screenshots_of_all children ++ b.screenshots
  screenshots_of _ = []

  pub screenshots_of_all : Blocks → List Screenshot
  screenshots_of_all no_blocks = []
  screenshots_of_all (block b bs) = screenshots_of b ++ screenshots_of_all bs

abbrev pub descriptors : List Screenshot → List Fields
descriptors [] = []
descriptors (s ∷ ss) = descriptor s ∷ descriptors ss

abbrev pub is_kind : String → Option Json → Bool
is_kind k (some (str s)) = str_eq s k
is_kind k _ = false

-- How a browser reads a payload: the number and the file's name of each screenshot, through the
-- keys `blocks`, `children` and `screenshots`.
unfoldable mutual
  unfolding get

  pub shown : Json → List (Json × Json)
  shown (arr js) = shown_all js
  shown (obj d) =
      let inner = shown_below d in
      if is_kind "screenshot" (get "type" d)
      then (get_or_null "index" d, get_or_null "filename" d) ∷ []
      else inner
  shown _ = []

  pub shown_all : Items → List (Json × Json)
  shown_all nil = []
  shown_all (cons j js) = shown j ++ shown_all js

  pub shown_below : Fields → List (Json × Json)
  shown_below end = []
  shown_below (field k j d) =
      let here = shown j in
      let rest = shown_below d in
      if str_eq k "blocks" || str_eq k "children" || str_eq k "screenshots"
      then here ++ rest
      else rest

-- The entries of the private list under their numbers, from `n` on.
abbrev pub numbered : ℕ → List Fields → List (Json × Json)
numbered n [] = []
numbered n (d ∷ ds) = (num n, get_or_null "filename" d) ∷ numbered (suc n) ds

module _ {A : Type 0} where
  ++-assoc : (xs ys zs : List A) → (xs ++ ys) ++ zs ≡ xs ++ (ys ++ zs)
  ++-assoc [] ys zs = refl
  ++-assoc (x ∷ xs) ys zs = ap (λ l. x ∷ l) (++-assoc xs ys zs)

  ++-nil : (xs : List A) → xs ++ [] ≡ xs
  ++-nil [] = refl
  ++-nil (x ∷ xs) = ap (λ l. x ∷ l) (++-nil xs)

  length-++ : (xs ys : List A) → length (xs ++ ys) ≡ length ys + length xs
  length-++ [] ys = omega arith
  length-++ (x ∷ xs) ys = omega (arith, length-++ xs ys)

descriptors-++ :
    (xs ys : List Screenshot) → descriptors (xs ++ ys) ≡ descriptors xs ++ descriptors ys
descriptors-++ [] ys = refl
descriptors-++ (x ∷ xs) ys = ap (λ l. descriptor x ∷ l) (descriptors-++ xs ys)

numbered-++ :
    (n : ℕ) (xs ys : List Fields)
    → numbered n (xs ++ ys) ≡ numbered n xs ++ numbered (length xs + n) ys
numbered-++ n [] ys = ap (λ m. numbered m ys) (omega arith)
numbered-++ n (x ∷ xs) ys =
    let e : length xs + suc n ≡ length (x ∷ xs) + n = omega arith in
    rw (numbered-++ (suc n) xs ys, e) refl

-- After the screenshots taken so far, the JSON shows these under the next numbers, and their
-- descriptors are taken.
abbrev Shows : List Fields → List (Json × Json) → List Fields → List Screenshot → Type 0
Shows t numbers t' ss =
    (t' ≡ t ++ descriptors ss) × (numbers ≡ numbered (length t) (descriptors ss))

Shows-nothing : (t : List Fields) → Shows t [] t []
Shows-nothing t = (sym (++-nil t), refl)

Shows-++ :
    (t u v : List Fields) (ms ns : List (Json × Json)) (xs ys : List Screenshot)
    → Shows t ms u xs
    → Shows u ns v ys
    → Shows t (ms ++ ns) v (xs ++ ys)
Shows-++ t u v ms ns xs ys h k = (
  rw (k.0, h.0, descriptors-++ xs ys) (++-assoc t (descriptors xs) (descriptors ys)),
  rw (h.1, k.1, h.0, length-++ t (descriptors xs), descriptors-++ xs ys)
      (sym (numbered-++ (length t) (descriptors xs) (descriptors ys))),
)

screenshot_json-Shows :
    (s : Screenshot) (t : List Fields)
    → Shows t (shown (screenshot_json s t).0) (screenshot_json s t).1 (s ∷ [])
unfolding screenshot_json shown get
screenshot_json-Shows s t = (refl, rw (filename-descriptor s) refl)

screenshots_json-Shows :
    (ss : List Screenshot) (t : List Fields)
    → Shows t (shown_all (screenshots_json ss t).0) (screenshots_json ss t).1 ss
unfolding screenshots_json shown
screenshots_json-Shows [] t = Shows-nothing t
screenshots_json-Shows (s ∷ ss) t =
    let t' = (screenshot_json s t).1 in
    Shows-++ t t' (screenshots_json ss t').1 (shown (screenshot_json s t).0)
      (shown_all (screenshots_json ss t').0) (s ∷ []) ss (screenshot_json-Shows s t)
      (screenshots_json-Shows ss t')

mutual
  unfolding block_to_json evidence_json analysis_json provenance_json shown screenshots_of get
      metadata_json link_json log_file_json bilingual_json bilingual_finds_json finds_json

  block_to_json-Shows :
      (b : Block) (t : List Fields)
      → Shows t (shown (block_to_json false b t).0) (block_to_json false b t).1 (screenshots_of b)
  block_to_json-Shows (screenshot b) t = screenshot_json-Shows b t
  block_to_json-Shows (incident_evidence b) t =
      let h = screenshots_json-Shows b.screenshots t in
      (h.0, ++-nil (shown_all (screenshots_json b.screenshots t).0) ∙ h.1)
  block_to_json-Shows (analysis_reference b children) t =
      let t' = (blocks_to_json false children t).1 in
      let ss = (screenshots_json b.screenshots t').0 in
      let both =
        Shows-++ t t' (screenshots_json b.screenshots t').1
          (shown_all (blocks_to_json false children t).0) (shown_all ss)
          (screenshots_of_all children) b.screenshots (blocks_to_json-Shows children t)
          (screenshots_json-Shows b.screenshots t') in
      (both.0, rw (++-nil (shown_all ss)) both.1)
  block_to_json-Shows (heading b) t = Shows-nothing t
  block_to_json-Shows (paragraph b) t = Shows-nothing t
  block_to_json-Shows divider t = Shows-nothing t
  block_to_json-Shows page_break t = Shows-nothing t
  block_to_json-Shows (metadata b) t = Shows-nothing t
  block_to_json-Shows (link b) t = Shows-nothing t
  block_to_json-Shows (log_file_reference b) t = Shows-nothing t
  block_to_json-Shows (alert_navigation b) t = Shows-nothing t
  block_to_json-Shows (bilingual_text b) t = Shows-nothing t
  block_to_json-Shows (bilingual_find_list b) t = Shows-nothing t
  block_to_json-Shows (find_list b) t = Shows-nothing t

  blocks_to_json-Shows :
      (bs : Blocks) (t : List Fields)
      → Shows t
          (shown_all (blocks_to_json false bs t).0)
          (blocks_to_json false bs t).1
          (screenshots_of_all bs)
  blocks_to_json-Shows no_blocks t = Shows-nothing t
  blocks_to_json-Shows (block b bs) t =
      let t' = (block_to_json false b t).1 in
      Shows-++ t t' (blocks_to_json false bs t').1 (shown (block_to_json false b t).0)
        (shown_all (blocks_to_json false bs t').0) (screenshots_of b) (screenshots_of_all bs)
        (block_to_json-Shows b t) (blocks_to_json-Shows bs t')

-- The private list of the preview holds the descriptors of the document's screenshots, in the
-- document's order, and what a browser finds in the payload, read in order, is the entries of
-- that list: the n-th screenshot has the number n, counted from 0, and the file's name of entry n.
pub preview-numbers :
    (d : ReportDocument)
    → ((document_to_preview_json d).1 ≡ descriptors (screenshots_of_all d.blocks))
      × (shown (document_to_preview_json d).0 ≡ numbered 0 (document_to_preview_json d).1)
unfolding document_to_preview_json shown get
preview-numbers d =
    let h = blocks_to_json-Shows d.blocks [] in
    (h.0, ++-nil (shown_all (blocks_to_json false d.blocks []).0) ∙ h.1 ∙ rw h.0 refl)
