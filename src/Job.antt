-- ===== src/Job.antt =====
-- bridge/noc_bridge/db.py: the row of the `jobs` table that the workers read and write, and each
-- statement that changes it. A UUID is its integer; a time is a number of microseconds.
pub mod Claim
pub mod Ownership
pub mod Lifecycle
use noc_report.Common.{
  ℕ, ◌+◌, ◌*◌, String, Bool, true, false, not, ◌&&◌, ◌||◌, Option, none, some, ltb, ◌==◌,
  if◌then◌else◌,
}

pub data Status : Type 0 where
  queued processing completed failed retrying : Status

pub record Job : Type 0 where
  pub status : Status
  pub started_at : Option ℕ
  pub completed_at : Option ℕ
  pub claimed_at : Option ℕ
  pub claim_token : Option ℕ
  pub lease_expires_at : Option ℕ
  pub worker_id : Option String
  pub error_code : Option String
  pub error_message : Option String
  pub attempt : ℕ

-- The table, by its primary key.
abbrev pub Jobs : Type 0
Jobs = ℕ → Option Job

abbrev pub set_row : Jobs → ℕ → Job → Jobs
set_row t id j k = if k == id then some j else t k

-- `UPDATE jobs SET … WHERE id = … AND …`, with `cur.rowcount == 1`.
abbrev pub update_found : Jobs → ℕ → (Job → Bool) → (Job → Job) → Option Job → Jobs × Bool
update_found t id p f none = (t, false)
update_found t id p f (some j) = if p j then (set_row t id (f j), true) else (t, false)

abbrev pub update_where : Jobs → ℕ → (Job → Bool) → (Job → Job) → Jobs × Bool
update_where t id p f = update_found t id p f (t id)

abbrev pub is_status : Status → Status → Bool
is_status queued queued = true
is_status processing processing = true
is_status completed completed = true
is_status failed failed = true
is_status retrying retrying = true
is_status _ _ = false

-- `claim_token = %s` in SQL: NULL equals nothing.
abbrev pub has_token : ℕ → Option ℕ → Bool
has_token token none = false
has_token token (some t) = t == token

-- `WHERE id = %s`, or `WHERE id = %s AND claim_token = %s` where a token is given.
abbrev pub token_guard : Option ℕ → Job → Bool
token_guard none j = true
token_guard (some token) j = has_token token j.claim_token

unfoldable pub mark_started : ℕ → Jobs → ℕ → Option ℕ → Jobs × Bool
mark_started now t id token =
    update_where t id (token_guard token)
      λ j. record j { status = processing; started_at = some now }

-- The columns of the `jobs` row; the columns of the `reports` row are left out.
unfoldable pub mark_completed : ℕ → Jobs → ℕ → Option ℕ → Jobs × Bool
mark_completed now t id token = update_where t id (token_guard token) λ j. record j {
  status = completed;
  completed_at = some now;
  error_code = none;
  error_message = none;
  claimed_at = none;
  claim_token = none;
  lease_expires_at = none;
}

unfoldable pub mark_failed : ℕ → Jobs → ℕ → String → String → Option ℕ → Jobs × Bool
mark_failed now t id code message token = update_where t id (token_guard token) λ j. record j {
  status = failed;
  completed_at = some now;
  error_code = some code;
  error_message = some message;
  claimed_at = none;
  claim_token = none;
  lease_expires_at = none;
}

unfoldable pub mark_retrying : Jobs → ℕ → String → String → Jobs × Bool
mark_retrying t id code message =
    update_where t id (λ _. true)
      λ j. record j {
        status = retrying;
        completed_at = none;
        error_code = some code;
        error_message = some message;
        claimed_at = none;
        claim_token = none;
        lease_expires_at = none;
      }

unfoldable pub bump_attempt : Jobs → ℕ → ℕ → Jobs
bump_attempt t id attempt = (update_where t id (λ _. true) (λ j. record j { attempt = attempt })).0

pub data Disposition : Type 0 where
  claimed already_completed lease_busy not_claimable : Disposition

pub record ClaimResult : Type 0 where
  pub disposition : Disposition
  pub job : Option Job

abbrev pub second : ℕ
second = 1000000

-- `lease_expires_at IS NULL OR lease_expires_at < now`.
abbrev pub is_expired : ℕ → Option ℕ → Bool
is_expired now none = true
is_expired now (some t) = ltb t now

-- The condition of the `UPDATE` in `claim_job`.
unfoldable pub is_claimable : ℕ → Job → Bool
is_claimable now j =
    not (is_status j.status completed)
    && ((is_status j.status queued || is_status j.status failed || is_status j.status retrying)
        || (is_status j.status processing && is_expired now j.lease_expires_at))

abbrev pub claim_row : ℕ → ℕ → String → ℕ → Job → Job
claim_row now token worker lease_seconds j = record j {
  status = processing;
  started_at = some now;
  claimed_at = some now;
  claim_token = some token;
  lease_expires_at = some (now + lease_seconds * second);
  worker_id = some worker;
}

-- What the locked read after a failed `UPDATE` says of the row.
abbrev pub classify_unclaimed : ℕ → Option Job → ClaimResult
classify_unclaimed now none = record { disposition = not_claimable; job = none }
classify_unclaimed now (some j) =
    if is_status j.status completed
    then record { disposition = already_completed; job = some j }
    else if is_status j.status processing && not (is_expired now j.lease_expires_at)
    then record { disposition = lease_busy; job = some j }
    else record { disposition = not_claimable; job = some j }

-- A refused update locks nothing, so other transactions may commit before the read: what they do to
-- the table is an argument.
abbrev pub claim_found :
    ℕ → ℕ → String → ℕ → (Jobs → Jobs) → Jobs → ℕ → Option Job → Jobs × ClaimResult
claim_found now token worker lease_seconds between t id none =
    (between t, classify_unclaimed now (between t id))
claim_found now token worker lease_seconds between t id (some j) =
    let row = claim_row now token worker lease_seconds j in
    if is_claimable now j
    then (set_row t id row, record { disposition = claimed; job = some row })
    else (between t, classify_unclaimed now (between t id))

unfoldable pub claim_job : ℕ → ℕ → String → ℕ → (Jobs → Jobs) → Jobs → ℕ → Jobs × ClaimResult
unfolding is_claimable
claim_job now token worker lease_seconds between t id =
    claim_found now token worker lease_seconds between t id (t id)

unfoldable pub renew_job_lease : ℕ → ℕ → Jobs → ℕ → ℕ → Jobs × Bool
renew_job_lease now lease_seconds t id token =
    update_where t id (λ j. is_status j.status processing && has_token token j.claim_token)
      λ j. record j { lease_expires_at = some (now + lease_seconds * second) }
