-- ===== src/Runner/Passing.antt =====
-- When a run passes, and what its assertions say.
use mathlib.Core.Path.{subst}
use liderahenk_test_platform.Base.{
  suc, String, ◌≡◌, refl, sym, ap, ◌∙◌, arith, if◌then◌else◌, Bool, true, false, not, ◌&&◌, Option,
  List, [], ◌∷◌, All, length,
}
use liderahenk_test_platform.Json.{ℤ, Value, str, Fields, obj, value_eq}
use liderahenk_test_platform.Access.{at_key}
use liderahenk_test_platform.Result.{Result, ok, err, ◌>>=◌, Returns, Returns-bind}
use liderahenk_test_platform.Runner.{Adapters, RunnerState, StepResult}
use liderahenk_test_platform.Runner.Run.{
  Assertion, RunResults, all_passed, passed_after, holds, check_assertions, mappings_at, report_run,
  read_scenario, run_steps, run,
}
use liderahenk_test_platform.Runner.Follows.{Follows, ended, moved, run_steps-Follows}
use liderahenk_test_platform.Runner.Progress.{Stage}

Follows-length :
    {g g' : Stage} {steps : List Fields} {rs : List StepResult}
    → Follows g steps rs g'
    → length rs ≡ length steps
Follows-length ended = refl
Follows-length (moved m rest) = ap suc (Follows-length rest)

-- The verdict is that of the steps, and each assertion says what it tests.
abbrev IsChecked : List StepResult → List Assertion × Bool → Type 0
IsChecked results x =
    (x.1 ≡ all_passed results) × All (λ a. a.passed ≡ holds a.type_text results) x.0

still :
    (p t h all_ok : Bool) → p ≡ all_ok → (t ≡ true → h ≡ all_ok) → (p && not (t && not h)) ≡ all_ok
still p false h all_ok e f = rw e (and_true all_ok)
  where
    and_true : (b : Bool) → (b && true) ≡ b
    and_true true = refl
    and_true false = refl
still p true h all_ok e f = rw (e, f refl) (both all_ok)
  where
    both : (b : Bool) → (b && not (not b)) ≡ b
    both true = refl
    both false = refl

check-IsChecked :
    (assertions : List Fields) (results : List StepResult) (p : Bool)
    → p ≡ all_passed results
    → Returns (IsChecked results) (check_assertions assertions results p)
unfolding check_assertions
check-IsChecked [] results p e = (e, tt)
check-IsChecked (a ∷ r) results p e =
    Returns-bind (IsChecked results) (at_key "type" (obj a)) _ λ t.
      by_rest t (check_assertions r results (next t)) (
        check-IsChecked r results (next t) (
          still p (value_eq t (str "all_steps_passed")) (holds t results) (all_passed results) e
            (all_hold t)))
  where
    next : Value → Bool
    next t = p && not (value_eq t (str "all_steps_passed") && not (holds t results))

    all_hold :
        (t : Value)
        → value_eq t (str "all_steps_passed") ≡ true
        → holds t results ≡ all_passed results
    all_hold t h = rw h refl

    by_rest :
        (t : Value) (m : Result (List Assertion × Bool))
        → Returns (IsChecked results) m
        → Returns
            (IsChecked results)
            (m >>= λ rest. ok (record { type_text = t; passed = holds t results } ∷ rest.0, rest.1))
    by_rest t (ok x) h = (h.0, (refl, h.1))
    by_rest t (err x) h = tt

passed_after-all_passed :
    (results : List StepResult) (p : Bool) → passed_after results p ≡ (p && all_passed results)
unfolding passed_after
passed_after-all_passed [] p = ground arith
passed_after-all_passed (r ∷ rs) p =
    passed_after-all_passed rs (if r.success then p else false) ∙ ground arith

-- The report is about the steps that it is given.
abbrev IsReport : List StepResult → RunResults → Type 0
IsReport results r =
    (r.steps ≡ results)
    × (r.passed ≡ all_passed results)
    × All (λ a. a.passed ≡ holds a.type_text results) r.assertions

module _ (repr : Value → String) (int_of : Value → Result ℤ) (ahenk_count : ℤ) (A : Adapters)
    (reaches : ℤ → ℤ → Option Value → Result Bool) (rate_text : ℤ → ℤ → String) where
  report_run-IsReport :
      (name : Value) (scenario : Fields) (results : List StepResult)
      → Returns
          (IsReport results)
          (report_run repr int_of ahenk_count A reaches rate_text name scenario results)
  unfolding report_run
  report_run-IsReport name scenario results =
      Returns-bind (IsReport results) (mappings_at "assertions" scenario) _ λ assertions.
        of_checked (check_assertions assertions results (passed_after results true)) (
          check-IsChecked assertions results (passed_after results true)
            (passed_after-all_passed results true))
    where
      of_checked :
          (m : Result (List Assertion × Bool))
          → Returns (IsChecked results) m
          → Returns (IsReport results) (
              m >>= λ checked. ok (record {
                scenario = name;
                steps = results;
                passed = checked.1;
                assertions = checked.0;
              }))
      of_checked (ok x) h = (refl, h.0, h.1)
      of_checked (err e) h = tt

  -- A report comes from the results of the steps.
  reported :
      (name : Value) (scenario : Fields) (m : Result (List StepResult)) (r : RunResults)
      → (m >>= λ results.
          report_run repr int_of ahenk_count A reaches rate_text name scenario results)
        ≡ ok r
      → (results : List StepResult) × (m ≡ ok results) × IsReport results r
  reported name scenario (err e) r h = cc
  reported name scenario (ok results) r h = (
    results,
    refl,
    subst (Returns (IsReport results)) h (report_run-IsReport name scenario results),
  )

  -- A run that gives results has one for each step of the scenario, also after a step that failed or
  -- raised; it passes exactly when every step succeeded, whatever its assertions are, and each
  -- assertion says what its type tests of those results.
  pub run_passes :
      (scenario : Fields) (s : RunnerState) (w : A.World) (name : Value) (steps : List Fields)
      (r : RunResults)
      → read_scenario repr int_of ahenk_count A reaches rate_text scenario ≡ ok (name, steps)
      → (run repr int_of ahenk_count A reaches rate_text scenario s w).result ≡ ok r
      → (length r.steps ≡ length steps)
        × (r.passed ≡ all_passed r.steps)
        × All (λ a. a.passed ≡ holds a.type_text r.steps) r.assertions
  unfolding run
  run_passes scenario s w name steps r q h =
      let (results, given, shape) =
        reported name scenario
          (run_steps repr int_of ahenk_count A reaches rate_text steps s w).result r (rw q at h) in
      let counted =
        Follows-length
          (run_steps-Follows repr int_of ahenk_count A reaches rate_text steps s w results given) in
      subst
        (λ x.
          (length x ≡ length steps)
          × (r.passed ≡ all_passed x)
          × All (λ a. a.passed ≡ holds a.type_text x) r.assertions)
        (sym shape.0) (counted, shape.1, shape.2)
