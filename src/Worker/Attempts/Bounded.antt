-- ===== src/Worker/Attempts/Bounded.antt =====
-- What the loops of output attempts come to.
use noc_report.Common.{
  ℕ, zero, suc, ◌+◌, ◌≤◌, ◌<◌, ◌≡◌, refl, ◌⊎◌, inl, inr, true, false, Option, some, leb, arith,
  Bool-cases,
}
use mathlib.Core.Path.{subst}
use noc_report.Failures.{ExcClass, Exc, is_value_error, hermes_invalid_response}
use noc_report.Result.{Result, ok, err}
use noc_report.Worker.Attempts.{
  Attempted, is_invalid_response, one_attempt, attempt_loop, after_error, after_check, after_call,
  attempted,
}

invalid_no_value : (c : ExcClass) → is_invalid_response c ≡ true → is_value_error c ≡ false
unfolding is_value_error
invalid_no_value hermes_invalid_response h = refl
invalid_no_value _ h = cc

module _ {R B : Type 0} (analyze : ℕ → Result R) (check : R → Result B)
    (last_resort : Option R → Result (R × B)) where
  -- An output that the checks or the last resort accept, after the given number of attempts; or an
  -- exception that is no error of an output.
  abbrev pub Settled : ℕ → Result (Attempted R B) → Type 0
  Settled n (ok a) =
      (a.attempts ≡ n)
      × ((check a.response ≡ ok a.output)
          ⊎ ((result : Option R) × (last_resort result ≡ ok (a.response, a.output))))
  Settled n (err e) = is_value_error e.cls ≡ false

  module _ (exhausted : Option R → Result (R × B)) (output_attempts : ℕ)
      (no_value_error : (result : Option R) (e : Exc)
        → last_resort result ≡ err e
        → is_value_error e.cls ≡ false) where
    abbrev Stepped : ℕ → Result (Attempted R B) ⊎ Option R → Type 0
    Stepped attempt (inl done) = Settled (attempt + 1) done
    Stepped attempt (inr next) = attempt + 1 < output_attempts

    last_Settled :
        (attempt : ℕ) (result : Option R) (r : Result (R × B))
        → last_resort result ≡ r
        → Settled
            (attempt + 1)
            (attempted analyze check last_resort exhausted output_attempts attempt r)
    last_Settled attempt result (ok (r, b)) h = (refl, inr (result, h))
    last_Settled attempt result (err e) h = no_value_error result e h

    error_Stepped :
        (attempt : ℕ) (result : Option R) (e : Exc)
        → Stepped attempt
            (after_error analyze check last_resort exhausted output_attempts attempt result e)
    error_Stepped attempt result e = elim (Bool-cases (is_invalid_response e.cls)) [
      | inl invalid ↦ rw invalid (elim (Bool-cases (leb output_attempts (attempt + 1))) [
        | inl last ↦ rw last (invalid_no_value e.cls invalid)
        | inr more ↦ rw more (ground arith)
      ])
      | inr other ↦ rw other (elim (Bool-cases (is_value_error e.cls)) [
        | inl value ↦ rw value (elim (Bool-cases (leb output_attempts (attempt + 1))) [
          | inl last ↦ rw last (last_Settled attempt result (last_resort result) refl)
          | inr more ↦ rw more (ground arith)
        ])
        | inr unknown ↦ rw unknown unknown
      ])
    ]

    check-Stepped :
        (attempt : ℕ) (r : R) (b : Result B)
        → check r ≡ b
        → Stepped attempt
            (after_check analyze check last_resort exhausted output_attempts attempt r b)
    check-Stepped attempt r (ok b) h = (refl, inl h)
    check-Stepped attempt r (err e) h = error_Stepped attempt (some r) e

    call_Stepped :
        (attempt : ℕ) (result : Option R) (r : Result R)
        → Stepped attempt
            (after_call analyze check last_resort exhausted output_attempts attempt result r)
    call_Stepped attempt result (ok r) = check-Stepped attempt r (check r) refl
    call_Stepped attempt result (err e) = error_Stepped attempt result e

    -- The calls so far are the number of the attempt, and the loop ends at an attempt of its own.
    abbrev Within : ℕ → Result (Attempted R B) × ℕ → Type 0
    Within attempt (r, calls) = (attempt < calls) × (calls ≤ output_attempts) × Settled calls r

    step_Within :
        (left attempt : ℕ) (o : Result (Attempted R B) ⊎ Option R)
        → attempt + suc left ≡ output_attempts
        → Stepped attempt o
        → ((again : Option R)
            → 1 ≤ left
            → Within (suc attempt) (
                attempt_loop analyze check last_resort exhausted output_attempts left
                  (suc attempt)
                  again
                  (suc attempt)))
        → Within attempt (elim o [
          | inl done ↦ (done, suc attempt)
          | inr again ↦
              attempt_loop analyze check last_resort exhausted output_attempts left
                (suc attempt)
                again
                (suc attempt)
        ])
    step_Within left attempt (inl done) total h rest =
        (omega arith, omega (arith, total), subst (λ k. Settled k done) (omega arith) h)
    step_Within left attempt (inr again) total h rest =
        let (low, high, settled) = rest again (omega (arith, total, h)) in
        (omega (arith, low), high, settled)

    pub loop_Within :
        (left attempt : ℕ) (result : Option R)
        → attempt + left ≡ output_attempts
        → 1 ≤ left
        → Within attempt (
            attempt_loop analyze check last_resort exhausted output_attempts left attempt result
              attempt)
    unfolding attempt_loop
    loop_Within zero attempt result total some_left = absurd (omega (arith, some_left))
    loop_Within (suc left) attempt result total some_left =
        step_Within left attempt
          (one_attempt analyze check last_resort exhausted output_attempts attempt result) total
          (unfold one_attempt in call_Stepped attempt result (analyze attempt))
          (λ again more. loop_Within left (suc attempt) again (omega (arith, total)) more)
