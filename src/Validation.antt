-- ===== src/Validation.antt =====
-- The checks of a log analysis beyond its schema (bridge/noc_bridge/validation.py). A check that raises is
-- false or none. What Python's strings and the regular expressions of the module decide of a text, and
-- its arithmetic on floats, is a record of functions.
pub mod Finds
pub mod Language
pub mod Accepted
pub mod Consistent
use noc_report.Common.{
  ℕ, String, Bool, true, false, not, ◌&&◌, ◌||◌, Option, none, some, List, [], ◌∷◌, leb, ltb, ◌==◌,
  if◌then◌else◌,
}
use noc_report.Json.{Json, null, num, str, arr, obj, Items, nil, cons, Fields, get_or_null}

-- `len`; `strip` and whether it leaves nothing; a text without closing quotes and brackets, without
-- stops, at its end; whether it ends in an ellipsis; the number of matches of `_SENTENCE_ENDINGS`, and
-- whether the last character is one; `casefold` without what is no word character; `in`; whether the
-- other expressions match. Of floats: whether a number is finite and from 0 to 100; the rounded
-- percentage of a count in a total that is not 0; and whether a number is within 0.01 of another.
pub record Text : Type 0 where
  pub len : String → ℕ
  pub is_blank : String → Bool
  pub strip : String → String
  pub without_closing : String → String
  pub without_stops : String → String
  pub ends_in_ellipsis : String → Bool
  pub endings : String → ℕ
  pub ends_sentence : String → Bool
  pub compact : String → String
  pub occurs_in : String → String → Bool
  pub trailing_incomplete : String → Bool
  pub linking_evidence : String → Bool
  pub shared_causation : String → Bool
  pub speculative_causation : String → Bool
  pub causation_negation : String → Bool
  pub is_percentage : Json → Bool
  pub share : ℕ → ℕ → Json
  pub is_near : Json → Json → Bool

module _ (t : Text) where
  -- `_sentence_count`.
  abbrev pub sentence_count : String → ℕ
  sentence_count s = if t.endings s == 0 then 1 else t.endings s

  -- Whether `_validate_narrative_completion` returns.
  unfoldable pub is_complete : String → Bool
  is_complete value =
      let text = t.strip value in
      let lexical = t.without_closing text in
      not (t.is_blank value)
      && not (t.ends_in_ellipsis text)
      && not (t.trailing_incomplete (t.without_stops lexical))
      && t.ends_sentence lexical

  abbrev pub is_filled : Json → Bool
  is_filled (str s) = not (t.is_blank s)
  is_filled _ = false

  unfoldable pub valid_summary : Json → Bool
  valid_summary (str s) =
      not (t.is_blank s)
      && leb (t.len s) 800
      && is_complete s
      && leb 2 (sentence_count s)
      && leb (sentence_count s) 4
  valid_summary _ = false
