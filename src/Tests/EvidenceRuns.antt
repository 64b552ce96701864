-- ===== src/Tests/EvidenceRuns.antt =====
-- Two pending pieces of evidence, of which a snapshot names one.
use noc_report.Common.{
  ℕ, String, ◌≤◌, ◌≡◌, ◌≢◌, refl, ◌⊎◌, ◌↔◌, true, false, none, some, List, [], ◌∷◌, if◌then◌else◌,
  arith, ◌==◌, All, All₂,
}
use noc_report.Json.{Json, str, arr, obj, nil, cons, end, field}
use noc_report.Table.{first_where, update_row}
use noc_report.Table.Keys.{HasKeys}
use noc_report.Evidence.{
  Evidence, References, Texts, purge_pending, contains_evidence_id, references_for, client_error,
  other_error, request_purge, purge_storage,
}
use noc_report.Evidence.Protection.{Names, contains_evidence_id_lem}
use noc_report.Evidence.Requests.{Answer, request_purge_guarded}
use noc_report.Evidence.Sweep.{Surroundings, row_id, sweep_pending_purges}
use noc_report.Evidence.Sweep.Safety.{Swept, Allowed, sweep_safe}
use noc_report.Evidence.Uploads.{
  Naming, UploadSurroundings, UploadIntent, opened, evidence_object_key, identity_is_valid,
  clean_intent, cleanup_rounds, sweep_abandoned_upload_intents,
}
use noc_report.Evidence.Uploads.Safety.{Abandoned, sweep_abandoned_upload_intents_safe}
use noc_report.Evidence.Sweep.Progress.{KeptBack, sweep_exhausts, sweep_starved}

abbrev texts : Texts
texts = record { str_of = λ v. ""; uuid_text = λ n. if n == 1 then "one" else "two" }

abbrev row : ℕ → Evidence
row id = record {
  id = id;
  bucket = "b";
  object_key = "k";
  version_id = none;
  lifecycle_state = purge_pending;
  deleted_at = some id;
  created_at = 0;
}

abbrev rows : List Evidence
rows = row 1 ∷ row 2 ∷ []

-- An object that names the evidence 1, two levels down.
abbrev snapshot : Json
snapshot = obj (field "logs" (arr (cons (obj (field "evidence_id" (str "one") end)) nil)) end)

abbrev references : References
references = record { ocr_runs = []; analysis_runs = []; snapshots = snapshot ∷ [] }

abbrev surroundings : Surroundings
surroundings = record {
  references = λ round. references;
  locked = λ round id. false;
  delete_object = λ round plan. some (client_error "NoSuchKey");
  commit_fails = λ round. false;
}

abbrev refusing : Surroundings
refusing = record surroundings {
  references = λ round. record { ocr_runs = []; analysis_runs = []; snapshots = [] };
  delete_object = λ round plan. if plan.evidence_id == 1 then some other_error else none;
}

contains_evidence_id_lem_example :
    (contains_evidence_id texts "one" snapshot ≡ true) ↔ Names texts "one" snapshot
contains_evidence_id_lem_example = contains_evidence_id_lem texts "one" snapshot

request_purge_guarded_example :
    Answer texts references 50 (row 1) (request_purge texts references 50 (row 1))
request_purge_guarded_example = request_purge_guarded texts references 50 (row 1)

rows_have_keys : HasKeys row_id rows
rows_have_keys = ((λ q. omega arith, tt), (tt, tt))

sweep_safe_example :
    let w = sweep_pending_purges texts surroundings 50 rows in
    All (Allowed texts surroundings rows) w.deletions
    × All₂ (Swept texts surroundings rows w.deletions) rows w.rows
sweep_safe_example = sweep_safe texts surroundings rows 50 rows_have_keys

sweep_exhausts_example :
    All
      (λ e. (e.lifecycle_state ≢ purge_pending) ⊎ KeptBack texts surroundings e.id)
      (sweep_pending_purges texts surroundings 50 rows).rows
unfolding purge_storage
sweep_exhausts_example =
    sweep_exhausts texts surroundings (λ round id. refl, λ round plan. refl, λ round. refl) 50 rows
      (omega arith)

sweep_starved_example :
    let w = sweep_pending_purges texts refusing 50 rows in
    (w.rows ≡ rows) × (w.completed ≡ 0) × (w.deletions ≡ [])
unfolding first_where references_for purge_storage
sweep_starved_example =
    sweep_starved texts refusing rows (row 1) (λ round. refl) (λ round. refl) (λ round q. cc) 50

-- An upload that nobody completed, and one whose object another row of `evidence` has.
abbrev naming : Naming
naming = record { evidence_bucket = "b"; uuid_text = λ id. "u"; basename = λ s. s }

abbrev intent : ℕ → String → UploadIntent
intent id filename = record {
  id = id;
  incident_id = 9;
  bucket = "b";
  object_key = evidence_object_key naming 9 "LOG" filename id;
  evidence_type = "LOG";
  original_filename = filename;
  state = opened;
  expires_at = id;
  evidence_id = none;
  created_at = 0;
}

abbrev uploads : UploadSurroundings
uploads = record {
  now = 5;
  others = λ round rows. rows;
  evidence =
      λ round. record (row 1) { object_key = evidence_object_key naming 9 "LOG" "two" 2 } ∷ [];
  locked = λ round id. false;
  deletion_raises = λ round i. false;
  commit_fails = λ round. false;
}

-- The first is cleaned and the second completed.
uploads_states :
    (sweep_abandoned_upload_intents naming uploads 3 (intent 1 "one" ∷ intent 2 "two" ∷ [])).settled
    ≡ 2
unfolding sweep_abandoned_upload_intents cleanup_rounds clean_intent first_where identity_is_valid
    evidence_object_key update_row
uploads_states = refl

sweep_abandoned_upload_intents_safe_example :
    let w =
      sweep_abandoned_upload_intents naming uploads 3 (intent 1 "one" ∷ intent 2 "two" ∷ []) in
    All (Abandoned naming uploads) w.deletions × (w.settled ≤ 3)
sweep_abandoned_upload_intents_safe_example =
    sweep_abandoned_upload_intents_safe naming uploads 3 (intent 1 "one" ∷ intent 2 "two" ∷ [])
