-- ===== src/Evidence/Uploads.antt =====
-- `sweep_abandoned_upload_intents` (apps/api/app/evidence_purge_worker.py), with the keys of objects
-- (`evidence_object_key`, apps/api/app/core/storage.py). The columns of an intent that the sweep neither
-- reads nor writes are left out.
pub mod Safety
use Prim.Native.String.{◌++◌ as str_append}
use text.Mathlib.Text.{◌==◌ as str_eq}
use noc_report.Common.{
  ℕ, zero, suc, ◌+◌, String, Bool, true, false, not, ◌&&◌, ◌||◌, Option, none, some, is_none, List,
  [], ◌∷◌, ◌==◌, any, ltb, leb, if◌then◌else◌,
}
use noc_report.Table.{first_where, update_row}
use noc_report.Evidence.{Evidence}
use noc_report.Evidence.Sweep.{is_in}

pub data IntentState : Type 0 where
  opened completed expired cleaned : IntentState

pub record UploadIntent : Type 0 where
  pub id : ℕ
  pub incident_id : ℕ
  pub bucket : String
  pub object_key : String
  pub evidence_type : String
  pub original_filename : String
  pub state : IntentState
  pub expires_at : ℕ
  pub evidence_id : Option ℕ
  pub created_at : ℕ

-- The bucket of the settings, the text of a UUID, and the last part of a file's name by `pathlib`.
pub record Naming : Type 0 where
  pub evidence_bucket : String
  pub uuid_text : ℕ → String
  pub basename : String → String

-- What happens outside in each round: what others have done to the intents, the rows of `evidence` that
-- are committed, the intents that another session has locked, whether the deletion of an object's
-- versions raises, and whether the commit fails.
pub record UploadSurroundings : Type 0 where
  pub now : ℕ
  pub others : ℕ → List UploadIntent → List UploadIntent
  pub evidence : ℕ → List Evidence
  pub locked : ℕ → ℕ → Bool
  pub deletion_raises : ℕ → UploadIntent → Bool
  pub commit_fails : ℕ → Bool

pub record Cleanup : Type 0 where
  pub intents : List UploadIntent
  pub skipped_ids : List ℕ
  pub settled : ℕ
  -- The calls of `delete_object_versions`, with the round and the intent, newest first.
  pub deletions : List (ℕ × UploadIntent)

abbrev pub subdir : String → String
subdir evidence_type =
    if str_eq evidence_type "ALERT_SCREENSHOT" || str_eq evidence_type "GRAFANA_SCREENSHOT"
    then "alert"
    else if str_eq evidence_type "LOG"
    then "logs"
    else "supporting"

unfoldable pub evidence_object_key : Naming → ℕ → String → String → ℕ → String
evidence_object_key n incident_id evidence_type filename upload_id = str_append "incidents/" (
    str_append (n.uuid_text incident_id) (
      str_append "/" (
        str_append (subdir evidence_type) (
          str_append "/"
            (str_append (n.uuid_text upload_id) (str_append "-" (n.basename filename)))))))

abbrev pub is_unsettled : IntentState → Bool
is_unsettled opened = true
is_unsettled expired = true
is_unsettled _ = false

-- `ORDER BY expires_at, created_at`.
abbrev pub sooner : UploadIntent → UploadIntent → Bool
sooner e f =
    ltb e.expires_at f.expires_at || (e.expires_at == f.expires_at && ltb e.created_at f.created_at)

abbrev pub intent_id : UploadIntent → ℕ
intent_id e = e.id

abbrev pub evidence_id : Evidence → ℕ
evidence_id e = e.id

abbrev pub holds_object : UploadIntent → Evidence → Bool
holds_object i e = str_eq e.bucket i.bucket && str_eq e.object_key i.object_key

abbrev pub no_order : Evidence → Evidence → Bool
no_order e f = false

module _ (n : Naming) (s : UploadSurroundings) where
  unfoldable pub identity_is_valid : UploadIntent → Bool
  identity_is_valid i =
      str_eq i.bucket n.evidence_bucket
      && str_eq i.object_key
          (evidence_object_key n i.incident_id i.evidence_type i.original_filename i.id)

  abbrev pub is_abandoned : ℕ → List ℕ → UploadIntent → Bool
  is_abandoned round skipped i =
      is_unsettled i.state
      && leb i.expires_at s.now
      && not (is_in i.id skipped)
      && not (s.locked round i.id)

  abbrev pub write_intent : ℕ → (UploadIntent → UploadIntent) → Cleanup → Cleanup
  write_intent id f w = record w { intents = update_row intent_id id f w.intents }

  -- A settlement that is rolled back where the commit fails.
  abbrev pub settle_intent : ℕ → ℕ → (UploadIntent → UploadIntent) → Cleanup → Cleanup
  settle_intent round id f w =
      if s.commit_fails round then w else record (write_intent id f w) { settled = w.settled + 1 }

  abbrev pub skip : ℕ → Cleanup → Cleanup
  skip id w = record w { skipped_ids = id ∷ w.skipped_ids }

  -- An intent with another object than its own is skipped, and expired unless the commit fails.
  abbrev pub refuse : ℕ → UploadIntent → Cleanup → Cleanup
  refuse round i w =
      if s.commit_fails round
      then skip i.id w
      else write_intent i.id (λ j. record j { state = expired }) (skip i.id w)

  -- The deletion of the object: where it or the commit fails, the intent is skipped.
  abbrev pub delete_upload : ℕ → UploadIntent → Cleanup → Cleanup
  delete_upload round i w =
      let tried : Cleanup = record w { deletions = (round, i) ∷ w.deletions } in
      if s.deletion_raises round i || s.commit_fails round
      then skip i.id tried
      else record (write_intent i.id (λ j. record j { state = cleaned }) tried) {
        settled = w.settled + 1;
      }

  abbrev pub by_reference : ℕ → UploadIntent → Cleanup → Option Evidence → Cleanup
  by_reference round i w none = delete_upload round i w
  by_reference round i w (some e) =
      settle_intent round i.id (λ j. record j { state = completed; evidence_id = some e.id }) w

  unfoldable pub clean_intent : ℕ → UploadIntent → Cleanup → Cleanup
  clean_intent round i w =
      if not (is_none i.evidence_id)
      then settle_intent round i.id (λ j. record j { state = completed }) w
      else if not (identity_is_valid i)
      then refuse round i w
      else by_reference round i w (first_where no_order (holds_object i) (s.evidence round))

  -- What others have done to the intents by this round.
  abbrev pub refreshed : ℕ → Cleanup → Cleanup
  refreshed round w = record w { intents = s.others round w.intents }

  abbrev pub continue_with : (Cleanup → Cleanup) → ℕ → Cleanup → Option UploadIntent → Cleanup
  continue_with rest round w none = w
  continue_with rest round w (some i) = rest (clean_intent round i w)

  unfoldable pub cleanup_rounds : ℕ → ℕ → Cleanup → Cleanup
  cleanup_rounds zero round w = w
  cleanup_rounds (suc left) round w =
      let w' = refreshed round w in
      continue_with (cleanup_rounds left (suc round)) round w'
        (first_where sooner (is_abandoned round w'.skipped_ids) w'.intents)

  -- The count is `settled` of the result.
  unfoldable pub sweep_abandoned_upload_intents : ℕ → List UploadIntent → Cleanup
  sweep_abandoned_upload_intents limit intents =
      cleanup_rounds limit 0
        (record { intents = intents; skipped_ids = []; settled = 0; deletions = [] })
