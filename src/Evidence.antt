-- ===== src/Evidence.antt =====
-- apps/api/app/evidence_lifecycle.py: what keeps a piece of evidence, and its way from the request of
-- a purge to the deletion of its object. A UUID is its integer, a time a number of microseconds.
pub mod Protection
pub mod Requests
pub mod Sweep
pub mod Uploads
use text.Mathlib.Text.{◌==◌ as str_eq}
use noc_report.Common.{
  ℕ, suc, String, Bool, true, false, not, ◌&&◌, ◌||◌, Option, none, some, List, [], ◌∷◌, ◌++◌, ◌==◌,
  any, if◌then◌else◌, is_none,
}
use noc_report.Json.{Json, str, arr, obj, Items, nil, cons, Fields, end, field, get}
use noc_report.Table.{update_row}

pub data LifecycleState : Type 0 where
  active purge_pending purged : LifecycleState

pub record Evidence : Type 0 where
  pub id : ℕ
  pub bucket : String
  pub object_key : String
  pub version_id : Option String
  pub lifecycle_state : LifecycleState
  pub deleted_at : Option ℕ
  pub created_at : ℕ

pub record EvidencePurgePlan : Type 0 where
  pub evidence_id : ℕ
  pub bucket : String
  pub object_key : String
  pub version_id : Option String

-- The tables that refer to evidence: the `evidence_id` of each OCR run, the `log_evidence_id` of each
-- analysis run, and the JSON of each report snapshot.
pub record References : Type 0 where
  pub ocr_runs : List ℕ
  pub analysis_runs : List (Option ℕ)
  pub snapshots : List Json

-- `str` of what is no string, and the text of a UUID.
pub record Texts : Type 0 where
  pub str_of : Option Json → String
  pub uuid_text : ℕ → String

abbrev pub py_str : Texts → Option Json → String
py_str t (some (str s)) = s
py_str t v = t.str_of v

abbrev pub names : ℕ → Option ℕ → Bool
names id none = false
names id (some e) = e == id

module _ (t : Texts) where
  unfoldable mutual
    pub contains_evidence_id : String → Json → Bool
    contains_evidence_id id (obj d) = str_eq (py_str t (get "evidence_id" d)) id || any_value id d
    contains_evidence_id id (arr js) = any_item id js
    contains_evidence_id id _ = false

    pub any_value : String → Fields → Bool
    any_value id end = false
    any_value id (field k v d) = contains_evidence_id id v || any_value id d

    pub any_item : String → Items → Bool
    any_item id nil = false
    any_item id (cons v js) = contains_evidence_id id v || any_item id js

  unfoldable pub references_for : References → ℕ → List String
  unfolding contains_evidence_id
  references_for r id =
      (if any (λ e. e == id) r.ocr_runs then "OCR" ∷ [] else [])
      ++ ((if any (names id) r.analysis_runs then "analysis" ∷ [] else [])
          ++ (if any (contains_evidence_id (t.uuid_text id)) r.snapshots
              then "historical report snapshot" ∷ []
              else []))

abbrev pub plan_of : Evidence → EvidencePurgePlan
plan_of e = record {
  evidence_id = e.id;
  bucket = e.bucket;
  object_key = e.object_key;
  version_id = e.version_id;
}

abbrev pub is_state : LifecycleState → LifecycleState → Bool
is_state active active = true
is_state purge_pending purge_pending = true
is_state purged purged = true
is_state _ _ = false

-- A plan, or `EvidenceReferencedError` with the references.
pub data Request : Type 0 where
  planned : EvidencePurgePlan → Request
  referenced : List String → Request

abbrev or_now : ℕ → Option ℕ → Option ℕ
or_now now none = some now
or_now now (some t) = some t

abbrev pub request_unreferenced : ℕ → Evidence → List String → Request × Evidence
request_unreferenced now e (r ∷ rs) = (referenced (r ∷ rs), e)
request_unreferenced now e [] = (
  planned (plan_of e),
  record e { lifecycle_state = purge_pending; deleted_at = or_now now e.deleted_at },
)

-- The answer, and the row as it is flushed.
unfoldable pub request_purge : Texts → References → ℕ → Evidence → Request × Evidence
unfolding references_for
request_purge t r now e =
    if is_state e.lifecycle_state purged
    then (planned (plan_of e), e)
    else request_unreferenced now e (references_for t r e.id)

-- How `delete_object` raises: a `ClientError` with its code, or anything else.
pub data StorageError : Type 0 where
  client_error : String → StorageError
  other_error : StorageError

abbrev pub missing_codes : List String
missing_codes = "404" ∷ "NoSuchKey" ∷ "NoSuchVersion" ∷ "NotFound" ∷ []

-- What `purge_storage` raises, by what `delete_object` raised.
unfoldable pub purge_storage : Option StorageError → Option StorageError
purge_storage none = none
purge_storage (some (client_error code)) =
    if any (str_eq code) missing_codes then none else some (client_error code)
purge_storage (some other_error) = some other_error

unfoldable pub mark_purged : ℕ → List Evidence → List Evidence
unfolding update_row
mark_purged id rows = update_row (λ e. e.id) id (λ e. record e { lifecycle_state = purged }) rows
