-- ===== src/DailyInput/Exposure.antt =====
-- What of a snapshot reaches the language model.
use text.Mathlib.Text.{◌==◌ as str_eq}
use text.Mathlib.TextEquality.{eq_iff}
use noc_report.Common.{
  ◌≡◌, inl, inr, refl, arith, ℕ, suc, String, true, List, [], ◌∷◌, any, Bool-cases, if◌then◌else◌,
}
use noc_report.Json.{
  Json, null, bool, num, neg, real, str, arr, obj, Items, nil, cons, Fields, end, field, get,
  get_or_null, put, get-put,
}
use noc_report.Document.Reading.{list_of}
use noc_report.DailyInput.{incident_inputs, read_incidents, build_daily_report_input}

-- The entries of a dict under these keys.
unfoldable pub restrict : List String → Fields → Fields
restrict ks end = end
restrict ks (field k j d) =
    let rest = restrict ks d in if any (str_eq k) ks then field k j rest else rest

get-restrict :
    (ks : List String) (k : String) (d : Fields)
    → any (str_eq k) ks ≡ true
    → get k (restrict ks d) ≡ get k d
unfolding get restrict
get-restrict ks k end h = refl
get-restrict ks k (field j v d) h = elim (Bool-cases (str_eq j k)) [
  | inl same ↦
      let kept : any (str_eq j) ks ≡ true = ground (arith, eq_iff j k, same, h) in
      rw (kept, same) refl
  | inr other ↦ elim (Bool-cases (any (str_eq j) ks)) [
    | inl kept ↦ rw (kept, other) (get-restrict ks k d h)
    | inr dropped ↦ rw (dropped, other) (get-restrict ks k d h)
  ]
]

get_or_null-restrict :
    (ks : List String) (k : String) (d : Fields)
    → any (str_eq k) ks ≡ true
    → get_or_null k (restrict ks d) ≡ get_or_null k d
get_or_null-restrict ks k d h = rw (get_or_null, get-restrict ks k d h) refl

get_or_null-put :
    (k j : String) (v : Json) (d : Fields)
    → get_or_null k (put j v d) ≡ (if str_eq j k then v else get_or_null k d)
get_or_null-put k j v d = elim (Bool-cases (str_eq j k)) [
  | inl e ↦ rw (get_or_null, get-put k j v d, e) refl
  | inr e ↦ rw (get_or_null, get-put k j v d, e) refl
]

abbrev pub incident_keys : List String
incident_keys = "title" ∷ "status" ∷ "service" ∷ "environment" ∷ "report_fragment" ∷ []

abbrev pub shift_keys : List String
shift_keys = "shift_display_name" ∷ "shift_name" ∷ "shift_timezone" ∷ []

abbrev pub semantic_item : Json → Json
semantic_item (obj d) = obj (restrict incident_keys d)
semantic_item j = j

abbrev pub semantic_items : Items → Items
semantic_items nil = nil
semantic_items (cons j js) = cons (semantic_item j) (semantic_items js)

abbrev pub semantic_incidents : Json → Json
semantic_incidents (arr js) = arr (semantic_items js)
semantic_incidents j = j

-- The snapshot with the shift and the incidents only, and of each incident only its title, status,
-- service, environment and fragment.
unfoldable pub semantic : Fields → Fields
semantic d =
    put "incidents" (semantic_incidents (get_or_null "incidents" d)) (restrict shift_keys d)

incident_inputs-semantic :
    (n : ℕ) (js : Items)
    → incident_inputs n (list_of (semantic_items js)) ≡ incident_inputs n (list_of js)
unfolding incident_inputs
incident_inputs-semantic n nil = refl
incident_inputs-semantic n (cons (obj d) js) =
    let same : (k : String)
        → any (str_eq k) incident_keys ≡ true
        → get_or_null k (restrict incident_keys d) ≡ get_or_null k d =
      λ k h. get_or_null-restrict incident_keys k d h in
    rw
      (
        same "title" refl,
        same "status" refl,
        same "service" refl,
        same "environment" refl,
        same "report_fragment" refl,
        incident_inputs-semantic (suc n) js,
      )
      refl
incident_inputs-semantic n (cons null js) = incident_inputs-semantic (suc n) js
incident_inputs-semantic n (cons (bool b) js) = incident_inputs-semantic (suc n) js
incident_inputs-semantic n (cons (num b) js) = incident_inputs-semantic (suc n) js
incident_inputs-semantic n (cons (neg b) js) = incident_inputs-semantic (suc n) js
incident_inputs-semantic n (cons (real b) js) = incident_inputs-semantic (suc n) js
incident_inputs-semantic n (cons (str b) js) = incident_inputs-semantic (suc n) js
incident_inputs-semantic n (cons (arr b) js) = incident_inputs-semantic (suc n) js

read_incidents-semantic : (j : Json) → read_incidents (semantic_incidents j) ≡ read_incidents j
unfolding read_incidents
read_incidents-semantic (arr nil) = refl
read_incidents-semantic (arr (cons j js)) = rw (incident_inputs-semantic 1 (cons j js)) refl
read_incidents-semantic null = refl
read_incidents-semantic (bool b) = refl
read_incidents-semantic (num b) = refl
read_incidents-semantic (neg b) = refl
read_incidents-semantic (real b) = refl
read_incidents-semantic (str b) = refl
read_incidents-semantic (obj b) = refl

-- What the language model is given for a daily report is the same when the snapshot has lost everything but
-- the names and the time zone of the shift and, of each incident, its title, status, service,
-- environment and fragment.
pub build_daily_report_input-semantic :
    (snapshot : Fields)
    → build_daily_report_input (obj (semantic snapshot)) ≡ build_daily_report_input (obj snapshot)
unfolding build_daily_report_input semantic
build_daily_report_input-semantic snapshot =
    let v = semantic_incidents (get_or_null "incidents" snapshot) in
    let kept = restrict shift_keys snapshot in
    rw
      (
        get_or_null-put "incidents" "incidents" v kept,
        read_incidents-semantic (get_or_null "incidents" snapshot),
        get_or_null-put "shift_display_name" "incidents" v kept,
        get_or_null-put "shift_name" "incidents" v kept,
        get_or_null-put "shift_timezone" "incidents" v kept,
        get_or_null-restrict shift_keys "shift_display_name" snapshot refl,
        get_or_null-restrict shift_keys "shift_name" snapshot refl,
        get_or_null-restrict shift_keys "shift_timezone" snapshot refl,
      )
      refl
