-- ===== src/Worker/Settle.antt =====
-- `_error_detail`, `_settle_failure` and the two publishers of the dead-letter queue
-- (bridge/noc_bridge/worker.py, queue_topology.py).
use Prim.Native.String.{◌++◌}
use noc_report.Common.{
  ℕ, ◌+◌, String, Bool, true, false, not, ◌&&◌, Option, none, some, [], ltb, if◌then◌else◌,
}
use noc_report.Json.{Json, bool, num, str, Fields, end, field, get, put}
use noc_report.Failures.{
  Exc, foreign, Policy, retryable, terminal, classify_failure, error_code_attr, class_name,
}
use noc_report.Result.{pure, raise, ◌>>=◌, ◌>>◌}
use noc_report.Job.{mark_failed, mark_retrying, bump_attempt}
use noc_report.Topology.{dlx_exchange, queue_names}
use noc_report.Message.{strip_private}
use noc_report.Worker.Base.{Body, document, publish, ack, Settings, Outside, M, sql, send, meter}

abbrev or_default : String → Option String → String
or_default d none = d
or_default d (some s) = s

unfoldable pub error_detail : Exc → String × String
unfolding error_code_attr class_name
error_detail e = (or_default "WORKER_FAILURE" (error_code_attr e.cls), class_name e.cls)

abbrev pub builtin : String → Bool → Exc
builtin name value_error = record {
  cls =
      foreign
        (record { name = name; is_value_error = value_error; retryable = none; error_code = none });
  message = [];
}

-- `message[key]`, of a string.
abbrev text_field : Option Json → M String
text_field none = raise (builtin "KeyError" false)
text_field (some (str s)) = pure s
text_field (some _) = raise (builtin "TypeError" false)

abbrev pub text_of : String → Fields → M String
text_of key message = text_field (get key message)

abbrev pub parsed_uuid : Option ℕ → M ℕ
parsed_uuid none = raise (builtin "ValueError" true)
parsed_uuid (some id) = pure id

-- `int(message.get("attempt", 1))`, of what the schema lets through.
abbrev attempt_field : Option Json → M ℕ
attempt_field none = pure 1
attempt_field (some (num n)) = pure n
attempt_field (some _) = raise (builtin "TypeError" false)

abbrev pub attempt_of : Fields → M ℕ
attempt_of message = attempt_field (get "attempt" message)

-- `message.get("_claim_token")`.
abbrev token_field : Option Json → Option ℕ
token_field (some (num t)) = some t
token_field _ = none

abbrev pub claim_token_of : Fields → Option ℕ
claim_token_of message = token_field (get "_claim_token" message)

abbrev pub is_terminal : Policy → Bool
is_terminal terminal = true
is_terminal retryable = false

abbrev pub failure_report : String → String → ℕ → String → String → Fields
failure_report job_id job_type attempt code message = field "job_id" (str job_id) (
    field "job_type" (str job_type) (
      field "attempt" (num attempt)
        (field "error_code" (str code) (field "error" (str message) end))))

module _ (o : Outside) where
  unfoldable pub send_to_dlq : String → Fields → M (Unit {0})
  send_to_dlq job_type body =
      send o (publish dlx_exchange ((queue_names job_type).routing_key ++ ".dlq") (document body))

  unfoldable pub send_raw_to_dlq : String → Body → String → M (Unit {0})
  unfolding send_to_dlq
  send_raw_to_dlq job_type body reason = send_to_dlq job_type (
      field "quarantine" (str "invalid_job_message") (
        field "reason" (str reason) (
          field "body_size" (num (o.body_size body)) (
            field "body_truncated" (bool (ltb 4096 (o.body_size body)))
              (field "body_base64" (str (o.body_base64 body)) end)))))

  -- The branch that tries again.
  unfoldable pub schedule_retry : ℕ → Fields → ℕ → String → String → M (Unit {0})
  schedule_retry id message attempt code detail = do
    let retry = put "attempt" (num (attempt + 1)) (strip_private message)
    sql o (λ now t. (bump_attempt t id (attempt + 1), tt))
    job_type ← text_of "job_type" message
    send o (publish dlx_exchange (queue_names job_type).routing_key (document retry))
    sql o (λ now t. mark_retrying t id code detail)
    meter (λ m. record m { retry_count = m.retry_count + 1 })

  -- The branch that gives up.
  unfoldable pub give_up : Fields → ℕ → String → String → M (Unit {0})
  unfolding send_to_dlq
  give_up message attempt code detail = do
    job_type ← text_of "job_type" message
    job_id ← text_of "job_id" message
    send_to_dlq job_type (failure_report job_id job_type attempt code detail)
    meter (λ m. record m { jobs_failed = m.jobs_failed + 1 })

module _ (o : Outside) (settings : Settings) where
  unfoldable pub settle_failure : ℕ → Fields → Exc → M (Unit {0})
  unfolding schedule_retry give_up error_detail
  settle_failure tag message exc = do
    let code = (error_detail exc).0
    let detail = (error_detail exc).1
    job_id ← text_of "job_id" message
    id ← parsed_uuid (o.uuid job_id)
    sql o (λ now t. mark_failed now t id code detail (claim_token_of message))
    attempt ← attempt_of message
    if not (is_terminal (classify_failure exc)) && ltb attempt settings.max_attempts
        then schedule_retry o id message attempt code detail
        else give_up o message attempt code detail
    send o (ack tag)
