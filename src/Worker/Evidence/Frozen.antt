-- ===== src/Worker/Evidence/Frozen.antt =====
-- The log that a job reads is the one that its message names.
use text.Mathlib.TextEquality.{eq_iff}
use noc_report.Common.{
  String, ◌≡◌, refl, sym, ◌∙◌, ap, inl, inr, true, Option, none, some, List, Among, arith,
  Bool-cases,
}
use mathlib.Core.Path.{subst}
use noc_report.Json.{Json, str, arr, obj, nil, cons, Fields, get}
use noc_report.Result.{Result, ok, err}
use noc_report.Table.{first_where, first_where-satisfies, first_where-Among}
use noc_report.Worker.Evidence.{
  LogRow, single_ref, given_text, is_log_of, newer, matches, text_or_raise, verified, found,
  look_up, with_ref, incident_and_evidence,
}

-- A row of the table: an active log of the incident, at the bucket and the key of the reference, with its checksum and its
-- version where the reference gives them.
abbrev pub IsFrozenLog : List LogRow → String → Fields → LogRow → Type 0
IsFrozenLog rows incident ref e =
    Among e rows
    × (e.incident_id ≡ incident)
    × (e.evidence_type ≡ "LOG")
    × (e.lifecycle_state ≡ "ACTIVE")
    × (get "bucket" ref ≡ some (str e.bucket))
    × (get "key" ref ≡ some (str e.object_key))
    × (matches (get "sha256" ref) e.sha256 ≡ true)
    × (matches (get "version_id" ref) e.version_id ≡ true)

given_text_lem : (j : Option Json) (s : String) → given_text j ≡ some s → j ≡ some (str s)
given_text_lem none s h = cc
given_text_lem (some (str t)) s h = ground arith
given_text_lem (some _) s h = cc

single_ref_lem :
    (j : Option Json) (d : Fields) → single_ref j ≡ some d → j ≡ some (arr (cons (obj d) nil))
single_ref_lem none d h = cc
single_ref_lem (some (arr (cons (obj e) nil))) d h = cc
single_ref_lem (some _) d h = ground arith

text_or_raise_lem : (j : Option Json) (s : String) → text_or_raise j ≡ ok s → j ≡ some (str s)
text_or_raise_lem none s h = cc
text_or_raise_lem (some (str t)) s h = cc
text_or_raise_lem (some _) s h = cc

is_log_of_lem :
    (incident bucket key : String) (e : LogRow)
    → is_log_of incident bucket key e ≡ true
    → (e.incident_id ≡ incident)
      × (e.evidence_type ≡ "LOG")
      × (e.lifecycle_state ≡ "ACTIVE")
      × (e.bucket ≡ bucket)
      × (e.object_key ≡ key)
is_log_of_lem incident bucket key e h = ground (
  arith,
  eq_iff e.incident_id incident,
  eq_iff e.evidence_type "LOG",
  eq_iff e.lifecycle_state "ACTIVE",
  eq_iff e.bucket bucket,
  eq_iff e.object_key key,
)

same_row :
    (i i' : Fields) (e e' : LogRow) (r : Result (Fields × LogRow))
    → r ≡ ok (i, e)
    → r ≡ ok (i', e')
    → e ≡ e'
same_row i i' e e' r h h' = cc

module _ (incidents : String → Option Fields) (rows : List LogRow) where
  verified_lem :
      (ref incident incident' : Fields) (e e' : LogRow)
      → verified incidents rows ref incident e ≡ ok (incident', e')
      → (e ≡ e')
        × (matches (get "sha256" ref) e.sha256 ≡ true)
        × (matches (get "version_id" ref) e.version_id ≡ true)
  verified_lem ref incident incident' e e' h =
      elim (Bool-cases (matches (get "sha256" ref) e.sha256)) [
        | inr differs ↦ cc (rw differs at h)
        | inl sha ↦ elim (Bool-cases (matches (get "version_id" ref) e.version_id)) [
          | inr differs ↦ cc (rw (sha, differs) at h)
          | inl version ↦
              (same_row incident incident' e e' _ refl (rw (sha, version) at h), sha, version)
        ]
      ]

  found_lem :
      (id bucket key : String) (ref incident' : Fields) (incident : Option Fields)
      (row : Option LogRow) (e : LogRow)
      → first_where newer (is_log_of id bucket key) rows ≡ row
      → get "bucket" ref ≡ some (str bucket)
      → get "key" ref ≡ some (str key)
      → found incidents rows ref incident row ≡ ok (incident', e)
      → IsFrozenLog rows id ref e
  found_lem id bucket key ref i' none row e q b k h = cc
  found_lem id bucket key ref i' (some i) none e q b k h = cc
  found_lem id bucket key ref i' (some i) (some f) e q b k h =
      let (same, sha, version) = verified_lem ref i i' f e h in
      let (of_incident, log, live, in_bucket, at_key) =
        is_log_of_lem id bucket key f
          (first_where-satisfies newer (is_log_of id bucket key) rows f q) in
      subst (IsFrozenLog rows id ref) same (
        first_where-Among newer (is_log_of id bucket key) rows f q,
        of_incident,
        log,
        live,
        b ∙ ap (λ x. some (str x)) (sym in_bucket),
        k ∙ ap (λ x. some (str x)) (sym at_key),
        sha,
        version,
      )

  look_up_lem :
      (id : String) (ref incident' : Fields) (bucket key : Result String) (e : LogRow)
      → text_or_raise (get "bucket" ref) ≡ bucket
      → text_or_raise (get "key" ref) ≡ key
      → look_up incidents rows id ref bucket key ≡ ok (incident', e)
      → IsFrozenLog rows id ref e
  look_up_lem id ref i' (err x) key e b k h = cc
  look_up_lem id ref i' (ok bucket) (err x) e b k h = cc
  look_up_lem id ref i' (ok bucket) (ok key) e b k h =
      found_lem id bucket key ref i' (incidents id) _ e refl
        (text_or_raise_lem (get "bucket" ref) bucket b) (text_or_raise_lem (get "key" ref) key k) h

  -- The message names the incident and, as its only reference, the log.
  abbrev pub IsNamed : Fields → LogRow → Type 0
  IsNamed message e =
      (id : String) × (ref : Fields) × (get "incident_id" message ≡ some (str id))
      × (get "object_refs" message ≡ some (arr (cons (obj ref) nil)))
      × IsFrozenLog rows id ref e

  with_ref_lem :
      (message : Fields) (id : Option String) (ref : Option Fields) (incident' : Fields)
      (e : LogRow)
      → given_text (get "incident_id" message) ≡ id
      → single_ref (get "object_refs" message) ≡ ref
      → with_ref incidents rows id ref ≡ ok (incident', e)
      → IsNamed message e
  with_ref_lem message none ref i' e q r h = cc
  with_ref_lem message (some id) none i' e q r h = cc
  with_ref_lem message (some id) (some ref) i' e q r h = (
    id,
    ref,
    given_text_lem (get "incident_id" message) id q,
    single_ref_lem (get "object_refs" message) ref r,
    look_up_lem id ref i' _ _ e refl refl h,
  )

  -- A log that an analysis is given is a row of the table, an active log of the incident that the message names, at the
  -- bucket and key of the message's only reference, and has the checksum and the version that the
  -- reference gives.
  pub incident_and_evidence_frozen :
      (message incident : Fields) (e : LogRow)
      → incident_and_evidence incidents rows message ≡ ok (incident, e)
      → IsNamed message e
  unfolding incident_and_evidence
  incident_and_evidence_frozen message incident e h =
      with_ref_lem message _ _ incident e refl refl h
