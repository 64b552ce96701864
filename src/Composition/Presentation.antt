-- ===== src/Composition/Presentation.antt =====
-- The full presentation of an analysis (bridge/noc_bridge/analysis_presentation.py).
use Prim.Native.String.{◌++◌ as str_append}
use text.Mathlib.Text.{◌==◌ as str_eq}
use noc_report.Common.{String, Bool, true, false, Option, none, some, List, [], if◌then◌else◌}
use noc_report.Json.{Json, null, num, str, arr, obj, Fields, get_or_null}
use noc_report.Document.{Find, FindList, Blocks, no_blocks, block, heading, paragraph, find_list}
use noc_report.Document.Reading.{◌>>=◌, each_of, list_of, parse_blocks, parse_block}
use noc_report.Composition.{Library, as_dict, dicts_of, text_of, text_of_either}

module _ (lib : Library) where
  -- `f"{count:,} / {percentage}%"` and `f"{count:,}"`.
  abbrev pub stat_of : Json → Json → Option Json
  stat_of null percentage = some null
  stat_of count null = do s ← lib.with_commas count; some (str s)
  stat_of count percentage = do
    s ← lib.with_commas count
    some (str (str_append s (str_append " / " (str_append (lib.to_str percentage) "%"))))

  unfoldable pub present_find : Bool → Fields → Option Find
  present_find zh d = do
    stat ← stat_of (get_or_null "count" d) (get_or_null "percentage" d)
    let label =
        if zh
        then text_of_either lib "label_zh" "label_en" d
        else text_of_either lib "label_en" "label_zh" d
    let detail = text_of lib (if zh then "detail_zh" else "detail_en") d
    some (record {
      label = str label;
      detail = if str_eq detail "" then null else str detail;
      stat = stat;
    })

  -- The values of a key that are dicts; what is no list counts as empty.
  abbrev finds_under : String → Fields → List Fields
  finds_under key d = elim (get_or_null key d) [ arr js ↦ dicts_of (list_of js) | _ ↦ [] ]

  abbrev language : Bool → String
  language zh = if zh then "Chinese" else "English"

  unfoldable pub present_find_list : Bool → String → Fields → Option FindList
  present_find_list zh key d = do
    finds ← each_of (present_find zh) (finds_under key d)
    some (record {
      heading = str (if str_eq key "key_finds" then "Key Finds" else "Secondary Finds");
      finds = finds;
      language = str (language zh);
    })

  -- `_language_section`, in front of the blocks that follow.
  unfoldable pub language_section : Bool → Fields → Blocks → Option Blocks
  language_section zh d rest = do
    key_finds ← present_find_list zh "key_finds" d
    secondary_finds ← present_find_list zh "secondary_finds" d
    let summary = text_of lib (if zh then "summary_zh" else "summary_en") d
    some (
        block (heading (record { text = str (language zh); level = num 3 })) (
          block (heading (record { text = str "Short Summary"; level = num 4 })) (
            block (paragraph (record { text = str summary; style = null }))
              (block (find_list key_finds) (block (find_list secondary_finds) rest)))))

  abbrev is_contract : Json → Bool
  is_contract null = true
  is_contract (str s) = str_eq s "analysis-presentation-v1"
  is_contract _ = false

  -- The blocks that the result brings itself, a list under `report_presentation`.
  abbrev explicit_blocks : Fields → Option Json
  explicit_blocks d = do
    p ← as_dict (get_or_null "report_presentation" d)
    elim (get_or_null "blocks" p) [ arr js ↦ some (arr js) | _ ↦ none ]

  abbrev present_dict : Fields → Option Json → Option Blocks
  present_dict d (some raw) =
      parse_blocks lib.to_str lib.to_int (parse_block lib.to_str lib.to_int lib.limit) raw
  present_dict d none = do
    english ← language_section false d no_blocks
    language_section true d english

  unfoldable pub build_analysis_presentation : Json → Json → Option Blocks
  build_analysis_presentation (obj d) contract =
      if is_contract contract then present_dict d (explicit_blocks d) else none
  build_analysis_presentation _ contract = some no_blocks
