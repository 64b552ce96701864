-- ===== src/Message.antt =====
-- The job message: the checks of packages/contracts/job_message.schema.json, which `jsonschema`
-- applies for `_validate_job_message` (bridge/noc_bridge/worker.py) and `build_job_message`
-- (apps/api/app/core/queue.py), and the reads that the worker makes.
pub mod Valid
use text.Mathlib.Text.{◌==◌ as str_eq, starts_with}
use text.Mathlib.TextEquality.{eq_iff}
use noc_report.Common.{
  ◌≡◌, arith, String, Bool, true, false, not, ◌&&◌, ◌||◌, Option, none, some, List, [], ◌∷◌, leb,
  ◌==◌, any, if◌then◌else◌,
}
use noc_report.Json.{
  Json, null, num, str, arr, obj, Items, nil, cons, Fields, end, field, get, put, has_key,
}

abbrev pub required_keys : List String
required_keys =
    "protocol_version" ∷ "job_id" ∷ "job_type" ∷ "incident_id" ∷ "object_refs" ∷ "model" ∷ "effort"
    ∷ "skill_name" ∷ "skill_version" ∷ "skill_hash" ∷ "correlation_id" ∷ "attempt" ∷ []

abbrev pub optional_keys : List String
optional_keys =
    "skill_execution_hash" ∷ "skill_snapshot_id" ∷ "expected_output_type" ∷ "ai_policy" ∷ []

-- `"type": "string", "minLength": 1`.
abbrev pub is_text : Json → Bool
is_text (str s) = not (str_eq s "")
is_text _ = false

-- `"type": ["string", "null"]`.
abbrev is_text_or_null : Json → Bool
is_text_or_null (str s) = true
is_text_or_null null = true
is_text_or_null _ = false

-- `"type": ["string", "null"], "minLength": 1`.
abbrev is_some_text_or_null : Json → Bool
is_some_text_or_null null = true
is_some_text_or_null j = is_text j

-- `"type": "integer", "minimum": 1`.
abbrev pub is_positive : Json → Bool
is_positive (num n) = leb 1 n
is_positive _ = false

-- A property that is absent satisfies its schema.
abbrev when_present : (Json → Bool) → Option Json → Bool
when_present p none = true
when_present p (some j) = p j

abbrev is_present : Option Json → Bool
is_present none = false
is_present (some j) = true

unfoldable pub valid_ref : Json → Bool
unfolding get
valid_ref (obj d) =
    is_present (get "bucket" d)
    && is_present (get "key" d)
    && when_present is_text (get "bucket" d)
    && when_present is_text (get "key" d)
    && when_present is_text_or_null (get "sha256" d)
    && when_present is_text_or_null (get "version_id" d)
valid_ref _ = false

unfoldable pub valid_refs : Items → Bool
unfolding valid_ref
valid_refs nil = true
valid_refs (cons j js) = valid_ref j && valid_refs js

unfoldable pub valid_policy : Json → Bool
unfolding get
valid_policy (obj d) =
    when_present is_text (get "model" d)
    && when_present is_text (get "effort" d)
    && when_present is_positive (get "max_turns" d)
valid_policy _ = false

unfoldable pub known_key : String → Bool
known_key k = any (str_eq k) required_keys || any (str_eq k) optional_keys

module _ (is_uuid : String → Bool) where
  unfoldable pub valid_property : String → Json → Bool
  unfolding valid_refs valid_policy
  valid_property k j =
      if str_eq k "protocol_version"
      then elim j [ num n ↦ n == 1 | _ ↦ false ]
      else if str_eq k "job_id"
      then elim j [ str s ↦ is_uuid s | _ ↦ false ]
      else if str_eq k "object_refs"
      then elim j [ arr js ↦ valid_refs js | _ ↦ false ]
      else if str_eq k "ai_policy"
      then valid_policy j
      else if str_eq k "attempt"
      then is_positive j
      else if str_eq k "model" || str_eq k "effort"
      then is_some_text_or_null j
      else if str_eq k "incident_id"
          || str_eq k "skill_hash"
          || str_eq k "skill_execution_hash"
          || str_eq k "skill_snapshot_id"
      then is_text_or_null j
      else is_text j

  -- `additionalProperties: false`, and each property by its schema.
  unfoldable pub valid_properties : Fields → Bool
  valid_properties end = true
  valid_properties (field k j d) = known_key k && valid_property k j && valid_properties d

  unfoldable pub has_all : List String → Fields → Bool
  has_all [] d = true
  has_all (k ∷ ks) d = has_key k d && has_all ks d

  -- Whether `jsonschema.validate(message, _JOB_SCHEMA, …)` returns.
  unfoldable pub validate_job_message : Json → Bool
  validate_job_message (obj d) = has_all required_keys d && valid_properties d
  validate_job_message _ = false

-- `{key: value for key, value in message.items() if not key.startswith("_")}`.
unfoldable pub strip_private : Fields → Fields
strip_private end = end
strip_private (field k j d) =
    let rest = strip_private d in if starts_with k "_" then rest else field k j rest

-- A private key that is set disappears again.
pub strip_private-put :
    (k : String) (v : Json) (d : Fields)
    → starts_with k "_" ≡ true
    → strip_private (put k v d) ≡ strip_private d
unfolding strip_private put
strip_private-put k v end h = ground arith
strip_private-put k v (field j w d) h = ground (arith, eq_iff j k, strip_private-put k v d h)
