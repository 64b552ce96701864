-- ===== src/Worker/Evidence.antt =====
-- `_incident_and_evidence` (bridge/noc_bridge/worker.py): the log that a job may read.
pub mod Frozen
use text.Mathlib.Text.{◌==◌ as str_eq}
use text.Mathlib.TextEquality.{eq_iff}
use noc_report.Common.{
  ℕ, String, ◌≡◌, refl, ◌⊎◌, inl, inr, Bool, true, false, not, ◌&&◌, ◌||◌, Option, none, some, List,
  [], ◌∷◌, ltb, if◌then◌else◌, arith, Bool-cases, Option-cases,
}
use noc_report.Json.{Json, null, str, arr, obj, Items, nil, cons, Fields, get}
use noc_report.Failures.{Exc, evidence_verification, codes}
use noc_report.Result.{Result, ok, err}
use noc_report.Table.{first_where, first_where-satisfies}
use noc_report.Worker.Settle.{builtin}

-- The columns of the table `evidence` that the worker reads.
pub record LogRow : Type 0 where
  pub id : ℕ
  pub incident_id : String
  pub evidence_type : String
  pub lifecycle_state : String
  pub bucket : String
  pub object_key : String
  pub sha256 : Option String
  pub version_id : Option String
  pub created_at : ℕ

abbrev pub refused : String → Exc
refused text = record { cls = evidence_verification; message = codes text }

-- `message.get("object_refs") or []`, where it has one element.
abbrev pub single_ref : Option Json → Option Fields
single_ref (some (arr (cons (obj d) nil))) = some d
single_ref _ = none

-- The text of an incident's id that is given and not empty.
abbrev pub given_text : Option Json → Option String
given_text (some (str s)) = if str_eq s "" then none else some s
given_text _ = none

abbrev pub is_log_of : String → String → String → LogRow → Bool
is_log_of incident bucket key e =
    str_eq e.incident_id incident
    && str_eq e.evidence_type "LOG"
    && str_eq e.lifecycle_state "ACTIVE"
    && str_eq e.bucket bucket
    && str_eq e.object_key key

-- `ORDER BY created_at DESC`.
abbrev pub newer : LogRow → LogRow → Bool
newer e f = ltb f.created_at e.created_at

-- `ref.get(k)` is empty, or the column has its text.
abbrev matches_column : Option String → Option String → Bool
matches_column none column = true
matches_column (some s) none = false
matches_column (some s) (some c) = str_eq c s

abbrev pub matches : Option Json → Option String → Bool
matches ref column = matches_column (given_text ref) column

abbrev pub text_or_raise : Option Json → Result String
text_or_raise none = err (builtin "KeyError" false)
text_or_raise (some (str s)) = ok s
text_or_raise (some _) = err (builtin "ProgrammingError" false)

module _ (incidents : String → Option Fields) (rows : List LogRow) where
  abbrev pub verified : Fields → Fields → LogRow → Result (Fields × LogRow)
  verified ref incident e =
      if not (matches (get "sha256" ref) e.sha256)
      then err (refused "job evidence checksum does not match application metadata")
      else if not (matches (get "version_id" ref) e.version_id)
      then err (refused "job evidence version does not match application metadata")
      else ok (incident, e)

  abbrev pub found : Fields → Option Fields → Option LogRow → Result (Fields × LogRow)
  found ref (some incident) (some e) = verified ref incident e
  found ref _ _ = err (refused "job evidence is no longer attached to the incident")

  abbrev pub look_up : String → Fields → Result String → Result String → Result (Fields × LogRow)
  look_up incident ref (ok bucket) (ok key) =
      found ref (incidents incident) (first_where newer (is_log_of incident bucket key) rows)
  look_up incident ref (err e) key = err e
  look_up incident ref (ok bucket) (err e) = err e

  abbrev pub with_ref : Option String → Option Fields → Result (Fields × LogRow)
  with_ref (some incident) (some ref) =
      look_up incident ref (text_or_raise (get "bucket" ref)) (text_or_raise (get "key" ref))
  with_ref _ _ = err (refused "log analysis requires one incident and one evidence object")

  -- The message has passed the schema: `incident_id` is a text or null, `object_refs` a list of objects.
  unfoldable pub incident_and_evidence : Fields → Result (Fields × LogRow)
  incident_and_evidence message =
      with_ref (given_text (get "incident_id" message)) (single_ref (get "object_refs" message))
