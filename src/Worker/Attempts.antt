-- ===== src/Worker/Attempts.antt =====
-- The bounded loops of output attempts in `_process_log_triage_message` and
-- `_process_daily_report_message` (bridge/noc_bridge/worker.py). The call of the provider, the checks of an output
-- and the fallback are arguments.
pub mod Bounded
pub mod Outputs
use text.Mathlib.Text.{◌==◌ as str_eq}
use noc_report.Common.{
  ℕ, zero, suc, ◌+◌, String, Bool, true, false, ◌&&◌, ◌||◌, Option, none, some, leb, ◌⊎◌, inl, inr,
  if◌then◌else◌, [],
}
use noc_report.Failures.{ExcClass, Exc, hermes_invalid_response, foreign, is_value_error, codes}
use noc_report.Result.{Result, ok, err, Exec}
use noc_report.Worker.Settle.{builtin}

abbrev pub invalid_response : String → Exc
invalid_response text = record { cls = hermes_invalid_response; message = codes text }

abbrev pub is_invalid_response : ExcClass → Bool
is_invalid_response hermes_invalid_response = true
is_invalid_response _ = false

-- `max(1, int(settings.hermes_max_output_attempts))`.
abbrev pub at_least_one : ℕ → ℕ
at_least_one zero = 1
at_least_one (suc n) = suc n

-- `KeyError`, `TypeError`, `ValueError` and `OutputValidationError`, which is a `ValueError`.
abbrev pub is_fallback_error : ExcClass → Bool
is_fallback_error (foreign c) =
    c.is_value_error || str_eq c.name "KeyError" || str_eq c.name "TypeError"
is_fallback_error cls = is_value_error cls

-- A response of the provider, the output taken from it, and the number of the attempt.
pub record Attempted (R B : Type 0) : Type 0 where
  pub response : R
  pub output : B
  pub attempts : ℕ

module _ {R B : Type 0} (analyze : ℕ → Result R) (check : R → Result B)
    (last_resort : Option R → Result (R × B)) (exhausted : Option R → Result (R × B))
    (output_attempts : ℕ) where
  abbrev attempted : ℕ → Result (R × B) → Result (Attempted R B)
  attempted attempt (ok (r, b)) = ok (record { response = r; output = b; attempts = attempt + 1 })
  attempted attempt (err e) = err e

  -- What one attempt comes to: the end of the loop, or the next round with the last response.
  abbrev pub after_error : ℕ → Option R → Exc → Result (Attempted R B) ⊎ Option R
  after_error attempt result e =
      if is_invalid_response e.cls
      then (if leb output_attempts (attempt + 1) then inl (err e) else inr result)
      else if is_value_error e.cls
      then (if leb output_attempts (attempt + 1)
          then inl (attempted attempt (last_resort result))
          else inr result)
      else inl (err e)

  abbrev after_check : ℕ → R → Result B → Result (Attempted R B) ⊎ Option R
  after_check attempt r (ok b) = inl (attempted attempt (ok (r, b)))
  after_check attempt r (err e) = after_error attempt (some r) e

  abbrev after_call : ℕ → Option R → Result R → Result (Attempted R B) ⊎ Option R
  after_call attempt result (ok r) = after_check attempt r (check r)
  after_call attempt result (err e) = after_error attempt result e

  unfoldable pub one_attempt : ℕ → Option R → Result (Attempted R B) ⊎ Option R
  one_attempt attempt result = after_call attempt result (analyze attempt)

  -- The state counts the calls of the provider.
  unfoldable pub attempt_loop : ℕ → ℕ → Option R → Exec ℕ (Attempted R B)
  attempt_loop zero attempt result calls = (attempted attempt (exhausted result), calls)
  attempt_loop (suc left) attempt result calls = elim (one_attempt attempt result) [
    | inl done ↦ (done, suc calls)
    | inr next ↦ attempt_loop left (suc attempt) next (suc calls)
  ]

module _ {R B : Type 0} (analyze : ℕ → Result R) (check : R → Result B) where
  abbrev pub fallback_error : Exc → Exc
  fallback_error e =
      if is_fallback_error e.cls
      then invalid_response "Hermes returned invalid structured output"
      else e

  abbrev from_fallback : R → Result B → Result (R × B)
  from_fallback r (ok b) = ok (r, b)
  from_fallback r (err e) = err (fallback_error e)

  -- `result.result` of `None` raises `AttributeError`.
  abbrev pub fall_back : (R → Result B) → Option R → Result (R × B)
  fall_back fallback none = err (builtin "AttributeError" false)
  fall_back fallback (some r) = from_fallback r (fallback r)

  abbrev pub triage_exhausted : Option R → Result (R × B)
  triage_exhausted r = err (builtin "AssertionError" false)

  unfoldable pub triage_output : (R → Result B) → ℕ → Exec ℕ (Attempted R B)
  unfolding attempt_loop
  triage_output fallback max_attempts =
      attempt_loop analyze check (fall_back fallback) triage_exhausted (at_least_one max_attempts)
        (at_least_one max_attempts) 0 none

module _ {R : Type 0} (analyze : ℕ → Result R) (check : R → Result R) where
  abbrev pub no_last_resort : Option R → Result (R × R)
  no_last_resort r = err (invalid_response "Hermes returned invalid daily report output")

  -- A plan that is there at the end of the loop is used as it is.
  abbrev pub plan_or_raise : Option R → Result (R × R)
  plan_or_raise none = err (invalid_response "Hermes returned no daily report plan")
  plan_or_raise (some r) = ok (r, r)

  unfoldable pub daily_output : ℕ → Exec ℕ (Attempted R R)
  unfolding attempt_loop
  daily_output max_attempts =
      attempt_loop analyze check no_last_resort plan_or_raise (at_least_one max_attempts)
        (at_least_one max_attempts) 0 none
