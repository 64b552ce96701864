-- ===== src/Message/Valid.antt =====
-- What a message that passes the schema is sure to hold.
use text.Mathlib.Text.{◌==◌ as str_eq}
use text.Mathlib.TextEquality.{eq_iff}
use noc_report.Common.{
  ℕ, ◌≤◌, String, ◌≡◌, refl, Bool, true, some, arith, Bool-cases, ap, ◌∙◌, inl, inr,
}
use noc_report.Json.{Json, num, str, obj, Fields, end, field, get, has_key}
use noc_report.Message.{valid_property, valid_properties, has_all, validate_job_message}

get_of_has_key : (k : String) (d : Fields) → has_key k d ≡ true → (j : Json) × (get k d ≡ some j)
unfolding get has_key
get_of_has_key k end h = cc
get_of_has_key k (field i j d) h = elim (Bool-cases (str_eq i k)) [
  | inl same ↦ (j, rw same)
  | inr other ↦ let (v, e) = get_of_has_key k d (rw other at h) in (v, rw other e)
]

valid_get :
    (is_uuid : String → Bool) (k : String) (j : Json) (d : Fields)
    → valid_properties is_uuid d ≡ true
    → get k d ≡ some j
    → valid_property is_uuid k j ≡ true
unfolding valid_properties get
valid_get is_uuid k j end v e = cc
valid_get is_uuid k j (field i w d) v e = ground (arith, eq_iff i k, valid_get is_uuid k j d)

module _ (is_uuid : String → Bool) where
  job_id_text :
      (j : Json)
      → valid_property is_uuid "job_id" j ≡ true
      → (s : String) × (j ≡ str s) × (is_uuid s ≡ true)
  unfolding valid_property
  job_id_text (str s) h = (s, refl, h)
  job_id_text _ h = cc

  job_type_text :
      (j : Json) → valid_property is_uuid "job_type" j ≡ true → (s : String) × (j ≡ str s)
  unfolding valid_property
  job_type_text (str s) h = (s, refl)
  job_type_text _ h = cc

  attempt_number :
      (j : Json) → valid_property is_uuid "attempt" j ≡ true → (n : ℕ) × (j ≡ num n) × (1 ≤ n)
  unfolding valid_property
  attempt_number (num n) h = (n, refl, ground arith)
  attempt_number _ h = cc

  -- The reads of the worker succeed on a valid message.
  pub record IsReadable (d : Fields) : Type 0 where
    pub job_id : String
    pub has_id : get "job_id" d ≡ some (str job_id)
    pub id_is_uuid : is_uuid job_id ≡ true
    pub job_type : String
    pub has_type : get "job_type" d ≡ some (str job_type)
    pub attempt : ℕ
    pub has_attempt : get "attempt" d ≡ some (num attempt)
    pub attempt_positive : 1 ≤ attempt

  present :
      (k : String) (d : Fields)
      → has_key k d ≡ true
      → valid_properties is_uuid d ≡ true
      → (j : Json) × (get k d ≡ some j) × (valid_property is_uuid k j ≡ true)
  present k d h v = let (j, e) = get_of_has_key k d h in (j, e, valid_get is_uuid k j d v e)

  required :
      (d : Fields)
      → validate_job_message is_uuid (obj d) ≡ true
      → (has_key "job_id" d ≡ true)
        × (has_key "job_type" d ≡ true)
        × (has_key "attempt" d ≡ true)
        × (valid_properties is_uuid d ≡ true)
  unfolding validate_job_message has_all
  required d h = ground arith

  pub valid-IsReadable : (d : Fields) → validate_job_message is_uuid (obj d) ≡ true → IsReadable d
  valid-IsReadable d h =
      let (has_id, has_type, has_attempt, valid) = required d h in
      let (j, id_at, id_ok) = present "job_id" d has_id valid in
      let (s, id_text, id_is_uuid) = job_id_text j id_ok in
      let (k, type_at, type_ok) = present "job_type" d has_type valid in
      let (job_type, type_text) = job_type_text k type_ok in
      let (a, attempt_at, attempt_ok) = present "attempt" d has_attempt valid in
      let (n, attempt_text, positive) = attempt_number a attempt_ok in
      record {
        job_id = s;
        has_id = id_at ∙ ap some id_text;
        id_is_uuid = id_is_uuid;
        job_type = job_type;
        has_type = type_at ∙ ap some type_text;
        attempt = n;
        has_attempt = attempt_at ∙ ap some attempt_text;
        attempt_positive = positive;
      }
