-- ===== src/Validation/Language.antt =====
-- The checks of the texts of a log analysis, and `validate_log_triage_result`
-- (bridge/noc_bridge/validation.py).
use Prim.Native.String.{◌++◌ as str_append}
use text.Mathlib.Text.{◌==◌ as str_eq}
use noc_report.Common.{
  ℕ, String, Bool, true, false, not, ◌&&◌, ◌||◌, is_none, List, [], ◌∷◌, ◌++◌, leb, any,
  if◌then◌else◌,
}
use noc_report.Json.{Json, num, str, arr, Fields, get_or_null}
use noc_report.Document.Reading.{list_of}
use noc_report.Composition.{dicts_of}
use noc_report.Validation.{Text, sentence_count, is_complete, valid_summary}
use noc_report.Validation.Finds.{check_groups}

-- The findings of a group that are dicts. `_validate_finding_detail_density` and the checks after it run
-- when both groups are lists of dicts.
abbrev pub findings_of : String → Fields → List Fields
findings_of key d = elim (get_or_null key d) [ arr js ↦ dicts_of (list_of js) | _ ↦ [] ]

module _ (t : Text) where
  abbrev brief : ℕ → ℕ → Json → Bool
  brief length sentences (str s) =
      leb (t.len s) length && leb (sentence_count t s) sentences && is_complete t s
  brief length sentences _ = true

  abbrev all_brief : ℕ → ℕ → List Fields → Bool
  all_brief length sentences [] = true
  all_brief length sentences (d ∷ ds) =
      brief length sentences (get_or_null "detail_zh" d)
      && brief length sentences (get_or_null "detail_en" d)
      && all_brief length sentences ds

  -- `_validate_finding_detail_density`.
  unfoldable pub has_density : Fields → Bool
  has_density d =
      all_brief 600 3 (findings_of "key_finds" d)
      && all_brief 320 1 (findings_of "secondary_finds" d)

  -- The details of a language, compacted, those that are long enough.
  abbrev long_details : String → List Fields → List String
  long_details key [] = []
  long_details key (d ∷ ds) =
      let rest = long_details key ds in
      elim (get_or_null key d) [
        | str s ↦ if leb 32 (t.len (t.compact s)) then t.compact s ∷ rest else rest
        | _ ↦ rest
      ]

  -- No detail stands in the summary, and none was seen before.
  abbrev no_copies : String → List String → List String → Bool
  no_copies summary seen [] = true
  no_copies summary seen (c ∷ cs) =
      not (t.occurs_in c summary) && not (any (str_eq c) seen) && no_copies summary (c ∷ seen) cs

  abbrev no_repetition_in : String → String → Fields → Bool
  no_repetition_in summary detail d = elim (get_or_null summary d) [
    | str s ↦ no_copies (t.compact s) [] (
        long_details detail (findings_of "key_finds" d)
        ++ long_details detail (findings_of "secondary_finds" d))
    | _ ↦ true
  ]

  -- `_validate_repetition`.
  unfoldable pub has_no_repetition : Fields → Bool
  has_no_repetition d =
      no_repetition_in "summary_zh" "detail_zh" d && no_repetition_in "summary_en" "detail_en" d

  abbrev add_line : Json → List String → List String
  add_line (str s) rest = s ∷ rest
  add_line _ rest = rest

  abbrev finding_lines : List Fields → List String
  finding_lines [] = []
  finding_lines (d ∷ ds) = add_line (get_or_null "label_en" d) (
      add_line (get_or_null "label_zh" d) (
        add_line (get_or_null "detail_en" d)
          (add_line (get_or_null "detail_zh" d) (finding_lines ds))))

  -- `"\n".join(lines)`.
  abbrev join_lines : List String → String
  join_lines [] = ""
  join_lines (l ∷ []) = l
  join_lines (l ∷ ls) = str_append l (str_append "\n" (join_lines ls))

  -- `_analysis_text`.
  unfoldable pub analysis_text : Fields → String
  analysis_text d = join_lines (
      add_line (get_or_null "summary_en" d) (
        add_line (get_or_null "summary_zh" d) (
          finding_lines (findings_of "key_finds" d)
          ++ finding_lines (findings_of "secondary_finds" d))))

  -- `_validate_causation_language`.
  unfoldable pub has_causal_evidence : Fields → Bool
  has_causal_evidence d =
      let text = analysis_text d in
      not (t.shared_causation text || t.speculative_causation text)
      || t.causation_negation text
      || t.linking_evidence text

  abbrev pub checked_total : Json → Fields → Bool
  checked_total (num total) d =
      valid_summary t (get_or_null "summary_zh" d)
      && valid_summary t (get_or_null "summary_en" d)
      && not (is_none (check_groups t total d))
      && has_density d
      && has_no_repetition d
      && has_causal_evidence d
  checked_total _ d = false

  unfoldable pub validate_log_triage_result : Fields → Bool
  validate_log_triage_result d = checked_total (get_or_null "total_entries" d) d
