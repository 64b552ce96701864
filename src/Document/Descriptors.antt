-- ===== src/Document/Descriptors.antt =====
-- The private list's entry of a screenshot, and `screenshot_from_dict`, which reads it back.
use text.Mathlib.Text.{◌==◌ as str_eq}
use noc_report.Common.{
  ◌≡◌, inl, inr, refl, ◌∙◌, String, true, false, not, ◌&&◌, some, List, [], ◌∷◌, if◌then◌else◌,
  Bool-cases,
}
use noc_report.Json.{Json, null, bool, num, neg, real, str, arr, obj, get, get_or_null}
use noc_report.Document.{Screenshot}
use noc_report.Document.Preview.{is_null, present, screenshot_entries, descriptor}
use noc_report.Document.Reading.{screenshot_from_dict}

-- The first value under a key that is not null.
abbrev value_of : String → List (String × Json) → Json
value_of k [] = null
value_of k ((j, v) ∷ es) =
    let rest = value_of k es in if str_eq j k && not (is_null v) then v else rest

get-present_other :
    (k j : String) (v : Json) (es : List (String × Json))
    → str_eq j k ≡ false
    → get k (present ((j, v) ∷ es)) ≡ get k (present es)
unfolding get present
get-present_other k j v es e = elim (Bool-cases (is_null v)) [
  | inl h ↦ rw h refl
  | inr h ↦ rw (h, e) refl
]

get_or_null-present :
    (k : String) (es : List (String × Json)) → get_or_null k (present es) ≡ value_of k es
unfolding get present
get_or_null-present k [] = refl
get_or_null-present k ((j, v) ∷ es) = elim (Bool-cases (str_eq j k)) [
  | inr f ↦ rw (get_or_null, get-present_other k j v es f, f) (get_or_null-present k es)
  | inl f ↦ elim (Bool-cases (is_null v)) [
    | inl e ↦ rw (e, get_or_null, f) (get_or_null-present k es)
    | inr e ↦ rw (e, get_or_null, f) refl
  ]
]

null_or : (v : Json) → (if not (is_null v) then v else null) ≡ v
null_or null = refl
null_or (bool b) = refl
null_or (num b) = refl
null_or (neg b) = refl
null_or (real b) = refl
null_or (str b) = refl
null_or (arr b) = refl
null_or (obj b) = refl

get-present :
    (k : String) (v : Json) (es : List (String × Json))
    → is_null v ≡ false
    → str_eq k k ≡ true
    → get k (present ((k, v) ∷ es)) ≡ some v
unfolding get present
get-present k v es h e = rw (h, e) refl

pub filename-descriptor : (s : Screenshot) → get_or_null "filename" (descriptor s) ≡ s.filename
unfolding descriptor
filename-descriptor s = get_or_null-present "filename" (screenshot_entries s) ∙ null_or s.filename

-- A screenshot with a bucket and an object key comes back from the entry that the private list
-- of the preview holds of it, whichever of its other fields are missing.
pub screenshot_from_dict-descriptor :
    (s : Screenshot)
    → is_null s.bucket ≡ false
    → is_null s.object_key ≡ false
    → screenshot_from_dict (obj (descriptor s)) ≡ some s
unfolding screenshot_from_dict descriptor
screenshot_from_dict-descriptor s b k =
    let es = screenshot_entries s in
    let rest : List (String × Json) =
      ("filename", s.filename)
      ∷ ("version_id", s.version_id)
      ∷ ("sha256", s.sha256)
      ∷ ("content_type", s.content_type)
      ∷ ("byte_size", s.byte_size)
      ∷ [] in
    let keyed : List (String × Json) = ("object_key", s.object_key) ∷ rest in
    let bucket : get "bucket" (present es) ≡ some s.bucket =
      get-present "bucket" s.bucket keyed b refl in
    let key : get "object_key" (present es) ≡ some s.object_key =
      get-present_other "object_key" "bucket" s.bucket keyed refl
      ∙ get-present "object_key" s.object_key rest k refl in
    rw
      (
        bucket,
        key,
        get_or_null-present "filename" es,
        null_or s.filename,
        get_or_null-present "version_id" es,
        null_or s.version_id,
        get_or_null-present "sha256" es,
        null_or s.sha256,
        get_or_null-present "content_type" es,
        null_or s.content_type,
        get_or_null-present "byte_size" es,
        null_or s.byte_size,
      )
      refl
