-- ===== src/Worker/Attempts/Outputs.antt =====
-- What the loops of the two job types return.
use noc_report.Common.{
  ℕ, zero, suc, ◌≤◌, ◌≡◌, refl, ◌⊎◌, inl, inr, false, Option, none, some, arith, Bool-cases,
}
use mathlib.Core.Path.{subst}
use noc_report.Failures.{ExcClass, Exc, is_value_error, foreign}
use noc_report.Worker.Settle.{builtin}
use noc_report.Result.{Result, ok, err}
use noc_report.Worker.Attempts.{
  Attempted, at_least_one, fall_back, fallback_error, is_fallback_error, from_fallback,
  triage_exhausted, triage_output, no_last_resort, plan_or_raise, daily_output,
}
use noc_report.Worker.Attempts.Bounded.{Settled, loop_Within}

raised : {A : Type 0} (e e' : Exc) (r : Result A) → r ≡ err e → r ≡ err e' → e ≡ e'
raised e e' r h h' = cc

uncaught : (c : ExcClass) → is_fallback_error c ≡ false → is_value_error c ≡ false
unfolding is_value_error
uncaught (foreign c) h = ground arith
uncaught _ h = h

at_least_one_positive : (n : ℕ) → 1 ≤ at_least_one n
at_least_one_positive zero = omega arith
at_least_one_positive (suc n) = omega arith

module _ {R B : Type 0} (analyze : ℕ → Result R) (check fallback : R → Result B) where
  fallback_error_value : (e : Exc) → is_value_error (fallback_error analyze check e).cls ≡ false
  unfolding is_value_error
  fallback_error_value e = elim (Bool-cases (is_fallback_error e.cls)) [
    | inl caught ↦ rw caught refl
    | inr other ↦ rw other (uncaught e.cls other)
  ]

  from_fallback_error :
      (r : R) (x : Result B) (e : Exc)
      → from_fallback analyze check r x ≡ err e
      → is_value_error e.cls ≡ false
  from_fallback_error r (ok b) e h = cc
  from_fallback_error r (err e') e h =
      subst (λ x. is_value_error x.cls ≡ false)
        (raised (fallback_error analyze check e') e _ refl h) (fallback_error_value e')

  fallback_no_value_error :
      (result : Option R) (e : Exc)
      → fall_back analyze check fallback result ≡ err e
      → is_value_error e.cls ≡ false
  fallback_no_value_error none e h =
      subst (λ x. is_value_error x.cls ≡ false) (raised (builtin "AttributeError" false) e _ refl h)
        (unfold is_value_error in refl)
  fallback_no_value_error (some r) e h = from_fallback_error r (fallback r) e h

  from_fallback_output :
      (r r' : R) (x : Result B) (b : B)
      → from_fallback analyze check r x ≡ ok (r', b)
      → (r ≡ r') × (x ≡ ok b)
  from_fallback_output r r' (ok b') b h = (cc, cc)
  from_fallback_output r r' (err e) b h = cc

  fallback_accepts :
      (result : Option R) (r : R) (b : B)
      → fall_back analyze check fallback result ≡ ok (r, b)
      → fallback r ≡ ok b
  fallback_accepts none r b h = cc
  fallback_accepts (some r') r b h =
      let (same, accepted) = from_fallback_output r' r (fallback r') b h in rw (← same) accepted

  -- What the loop of a log analysis returns: an output that the checks or the checked fallback
  -- accept, with the number of the attempt; or an exception that is no error of an output.
  abbrev pub Analysed : ℕ → Result (Attempted R B) → Type 0
  Analysed n (ok a) =
      (a.attempts ≡ n) × ((check a.response ≡ ok a.output) ⊎ (fallback a.response ≡ ok a.output))
  Analysed n (err e) = is_value_error e.cls ≡ false

  Settled-Analysed :
      (n : ℕ) (r : Result (Attempted R B))
      → Settled analyze check (fall_back analyze check fallback) n r
      → Analysed n r
  Settled-Analysed n (ok a) (q, inl c) = (q, inl c)
  Settled-Analysed n (ok a) (q, inr (result, h)) =
      (q, inr (fallback_accepts result a.response a.output h))
  Settled-Analysed n (err e) h = h

  -- Whatever the provider answers, a log analysis calls it at least once and at most as often as is
  -- configured (once where that is zero). What it returns was accepted by the checks or by the
  -- checked fallback, with the number of calls as its number of attempts; where it raises, the exception
  -- is no `ValueError` or `OutputValidationError`.
  pub triage_output_bounded :
      (max_attempts : ℕ)
      → let (r, calls) = triage_output analyze check fallback max_attempts 0 in
        (1 ≤ calls) × (calls ≤ at_least_one max_attempts) × Analysed calls r
  unfolding triage_output
  triage_output_bounded max_attempts =
      let n = at_least_one max_attempts in
      let (r, calls) = triage_output analyze check fallback max_attempts 0 in
      let (low, high, settled) =
        loop_Within analyze check (fall_back analyze check fallback)
          (triage_exhausted analyze check) n fallback_no_value_error n 0 none (omega arith)
          (at_least_one_positive max_attempts) in
      (omega (arith, low), high, Settled-Analysed calls r settled)

module _ {R : Type 0} (analyze : ℕ → Result R) (check : R → Result R) where
  no_last_resort_error :
      (result : Option R) (e : Exc)
      → no_last_resort analyze check result ≡ err e
      → is_value_error e.cls ≡ false
  no_last_resort_error result e h =
      subst (λ x. is_value_error x.cls ≡ false) (raised _ e _ refl h)
        (unfold is_value_error in refl)

  -- What the loop of a daily report returns: a plan that the checks accept, with the number of the
  -- attempt; or an exception that is no error of an output.
  abbrev pub Planned : ℕ → Result (Attempted R R) → Type 0
  Planned n (ok a) = (a.attempts ≡ n) × (check a.response ≡ ok a.output)
  Planned n (err e) = is_value_error e.cls ≡ false

  Settled-Planned :
      (n : ℕ) (r : Result (Attempted R R))
      → Settled analyze check (no_last_resort analyze check) n r
      → Planned n r
  Settled-Planned n (ok a) (q, inl c) = (q, c)
  Settled-Planned n (ok a) (q, inr (result, h)) = cc
  Settled-Planned n (err e) h = h

  -- The loop of a daily report keeps the same bounds. A plan that it returns was accepted by the checks,
  -- although the loop would use, after its last round, any plan that is there; where it raises, the
  -- exception is no `ValueError` or `OutputValidationError`.
  pub daily_output_bounded :
      (max_attempts : ℕ)
      → let (r, calls) = daily_output analyze check max_attempts 0 in
        (1 ≤ calls) × (calls ≤ at_least_one max_attempts) × Planned calls r
  unfolding daily_output
  daily_output_bounded max_attempts =
      let n = at_least_one max_attempts in
      let (r, calls) = daily_output analyze check max_attempts 0 in
      let (low, high, settled) =
        loop_Within analyze check (no_last_resort analyze check) (plan_or_raise analyze check) n
          no_last_resort_error n 0 none (omega arith) (at_least_one_positive max_attempts) in
      (omega (arith, low), high, Settled-Planned calls r settled)
