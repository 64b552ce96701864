-- ===== src/Failures.antt =====
-- bridge/noc_bridge/failures.py, and the exception classes of the worker that it tells apart
-- (hermes.py, worker.py, storage.py, skill_registry.py, validation.py).
use Prim.Native.Char.{code}
use noc_report.Common.{
  ℕ, ◌+◌, String, Bool, true, false, ◌&&◌, ◌||◌, Option, none, some, List, [], ◌∷◌, leb, ◌==◌,
  if◌then◌else◌, any,
}

-- The code points of a text.
abbrev pub codes : String → List ℕ
codes String.[] = []
codes (String.◌∷◌ c s) = code c ∷ codes s

-- `str.lower()`, exact on what becomes ASCII: the capitals, the Kelvin sign and the dotted I. No
-- other code point has an ASCII character in its lower case.
abbrev pub lower_char : ℕ → List ℕ → List ℕ
lower_char c rest =
    if leb 65 c && leb c 90
    then (c + 32) ∷ rest
    else if c == 0x212a
    then 107 ∷ rest
    else if c == 0x130
    then 105 ∷ 775 ∷ rest
    else c ∷ rest

unfoldable pub lower : List ℕ → List ℕ
lower [] = []
lower (c ∷ s) = lower_char c (lower s)

-- `marker in text`.
unfoldable pub is_prefix : List ℕ → List ℕ → Bool
is_prefix [] t = true
is_prefix (c ∷ s) [] = false
is_prefix (c ∷ s) (d ∷ t) = c == d && is_prefix s t

unfoldable pub contains : List ℕ → List ℕ → Bool
unfolding is_prefix
contains m [] = is_prefix m []
contains m (c ∷ t) = is_prefix m (c ∷ t) || contains m t

-- A class that the repository does not define: its name, its attributes where it has them, and
-- whether it is a subclass of `ValueError`.
pub record ForeignClass : Type 0 where
  pub name : String
  pub is_value_error : Bool
  pub retryable : Option Bool
  pub error_code : Option String

pub data ExcClass : Type 0 where
  hermes_error hermes_unavailable hermes_timeout hermes_authentication : ExcClass
  provider_authentication provider_temporary provider_rate_limit : ExcClass
  hermes_invalid_response hermes_policy : ExcClass
  worker_input evidence_verification skill_configuration job_lease : ExcClass
  evidence_retrieval evidence_integrity output_validation : ExcClass
  skill_hash_mismatch skill_snapshot_missing checksum_mismatch : ExcClass
  foreign : ForeignClass → ExcClass

pub record Exc : Type 0 where
  pub cls : ExcClass
  pub message : List ℕ

-- The class attribute `retryable`, where `hasattr` finds one.
unfoldable pub retryable_attr : ExcClass → Option Bool
retryable_attr hermes_error = some true
retryable_attr hermes_unavailable = some true
retryable_attr hermes_timeout = some true
retryable_attr hermes_authentication = some false
retryable_attr provider_authentication = some false
retryable_attr provider_temporary = some true
retryable_attr provider_rate_limit = some true
retryable_attr hermes_invalid_response = some false
retryable_attr hermes_policy = some false
retryable_attr worker_input = some false
retryable_attr evidence_verification = some false
retryable_attr skill_configuration = some false
retryable_attr job_lease = some true
retryable_attr (foreign c) = c.retryable
retryable_attr _ = none

unfoldable pub error_code_attr : ExcClass → Option String
error_code_attr hermes_error = some "HERMES_ERROR"
error_code_attr hermes_unavailable = some "HERMES_UNAVAILABLE"
error_code_attr hermes_timeout = some "HERMES_TIMEOUT"
error_code_attr hermes_authentication = some "HERMES_AUTHENTICATION_ERROR"
error_code_attr provider_authentication = some "PROVIDER_AUTHENTICATION_ERROR"
error_code_attr provider_temporary = some "PROVIDER_TEMPORARY_FAILURE"
error_code_attr provider_rate_limit = some "PROVIDER_RATE_LIMIT"
error_code_attr hermes_invalid_response = some "HERMES_INVALID_OUTPUT"
error_code_attr hermes_policy = some "HERMES_TOOL_POLICY_VIOLATION"
error_code_attr worker_input = some "WORKER_INPUT_INVALID"
error_code_attr evidence_verification = some "EVIDENCE_VERIFICATION_FAILED"
error_code_attr skill_configuration = some "SKILL_CONFIGURATION_FAILED"
error_code_attr job_lease = some "JOB_LEASE_LOST"
error_code_attr (foreign c) = c.error_code
error_code_attr _ = none

-- `type(exc).__name__`.
unfoldable pub class_name : ExcClass → String
class_name hermes_error = "HermesError"
class_name hermes_unavailable = "HermesUnavailable"
class_name hermes_timeout = "HermesTimeout"
class_name hermes_authentication = "HermesAuthenticationError"
class_name provider_authentication = "HermesProviderAuthenticationError"
class_name provider_temporary = "HermesProviderTemporaryError"
class_name provider_rate_limit = "HermesProviderRateLimitError"
class_name hermes_invalid_response = "HermesInvalidResponse"
class_name hermes_policy = "HermesPolicyError"
class_name worker_input = "WorkerInputError"
class_name evidence_verification = "EvidenceVerificationError"
class_name skill_configuration = "SkillConfigurationError"
class_name job_lease = "JobLeaseError"
class_name evidence_retrieval = "EvidenceRetrievalError"
class_name evidence_integrity = "EvidenceIntegrityError"
class_name output_validation = "OutputValidationError"
class_name skill_hash_mismatch = "SkillHashMismatch"
class_name skill_snapshot_missing = "SkillSnapshotMissing"
class_name checksum_mismatch = "ChecksumMismatch"
class_name (foreign c) = c.name

-- `isinstance(exc, ValueError)`: `OutputValidationError` is the repository's only subclass.
unfoldable pub is_value_error : ExcClass → Bool
is_value_error output_validation = true
is_value_error (foreign c) = c.is_value_error
is_value_error _ = false

pub data Policy : Type 0 where
  retryable terminal : Policy

abbrev pub terminal_markers : List (List ℕ)
terminal_markers =
    codes "unauthorized"
    ∷ codes "unsupported skill"
    ∷ codes "invalid schema"
    ∷ codes "invalid evidence"
    ∷ codes "prompt too large"
    ∷ codes "security violation"
    ∷ codes "missing required immutable snapshot"
    ∷ []

abbrev pub retryable_markers : List (List ℕ)
retryable_markers = codes "structured_output_retry_exhausted" ∷ []

-- From `message = str(exc).lower()` on.
unfoldable pub classify_message : List ℕ → Policy
classify_message message =
    if any (λ marker. contains marker message) terminal_markers
    then terminal
    else if any (λ marker. contains marker message) retryable_markers
    then retryable
    else retryable

-- The `isinstance` ladder between the two.
unfoldable pub classify_class : ExcClass → List ℕ → Policy
classify_class evidence_integrity m = terminal
classify_class evidence_retrieval m = retryable
classify_class output_validation m = terminal
classify_class skill_hash_mismatch m = terminal
classify_class skill_snapshot_missing m = terminal
classify_class checksum_mismatch m = retryable
classify_class _ m = classify_message m

abbrev classify_with : Option Bool → Exc → Policy
classify_with (some true) exc = retryable
classify_with (some false) exc = terminal
classify_with none exc =
    if is_value_error exc.cls && contains (codes "unsupported") (lower exc.message)
    then terminal
    else classify_class exc.cls (lower exc.message)

unfoldable pub classify_failure : Exc → Policy
classify_failure exc = classify_with (retryable_attr exc.cls) exc
