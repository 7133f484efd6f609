-- ===== src/Runner/Run.antt =====
-- `run` and `_check_assertions` of orchestrator/main.py.
use liderahenk_test_platform.Base.{
  String, Bool, true, false, not, ◌&&◌, Option, none, some, List, [], ◌∷◌, all, any, if◌then◌else◌,
}
use liderahenk_test_platform.Base.Text.{is_empty}
use liderahenk_test_platform.Json.{ℤ, Value, str, arr, obj, nil, cons, Items, Fields, end, value_eq}
use liderahenk_test_platform.Access.{as_mapping, get_or, at_key}
use liderahenk_test_platform.Result.{Result, ok, err, ◌>>=◌ as bind, on_result}
use liderahenk_test_platform.Runner.{Adapters, RunnerState, StepResult, Ran, action_of}
use liderahenk_test_platform.Runner.Actions.{perform, caught}

module _ (repr : Value → String) (int_of : Value → Result ℤ) (ahenk_count : ℤ) (A : Adapters)
    (reaches : ℤ → ℤ → Option Value → Result Bool) (rate_text : ℤ → ℤ → String) where
  unfoldable pub execute_step : Fields → RunnerState → A.World → Ran A.World StepResult
  unfolding perform caught at_key action_of
  execute_step step s w =
      on_result (at_key "action" (obj step))
        (λ action.
          let (r, w') =
            perform repr int_of ahenk_count A reaches rate_text (action_of action)
              (get_or "params" (obj end) step) s w in
          record { result = ok (caught s r).0; state = (caught s r).1; world = w' })
        (λ e. record { result = err e; state = s; world = w })

  -- The steps in order. A step without an action or a name raises, and the results are lost.
  unfoldable pub run_steps : List Fields → RunnerState → A.World → Ran A.World (List StepResult)
  unfolding execute_step at_key
  run_steps [] s w = record { result = ok []; state = s; world = w }
  run_steps (step ∷ r) s w =
      (let here = execute_step step s w in
        let rest = run_steps r here.state here.world in
        on_result (bind here.result λ done. bind (at_key "name" (obj step)) λ name. ok done)
          (λ done. record rest { result = bind rest.result λ more. ok (done ∷ more) })
          (λ e. record { result = err e; state = here.state; world = here.world }))

-- An assertion of the report; one type of them looks at the steps again.
pub record Assertion : Type 0 where
  pub type_text : Value
  pub passed : Bool

abbrev pub all_passed : List StepResult → Bool
all_passed results = all (λ r. r.success) results

-- `results["passed"]` in the loop over the steps: it is true before the first one, and a step that did
-- not succeed clears it.
unfoldable pub passed_after : List StepResult → Bool → Bool
passed_after [] passed = passed
passed_after (r ∷ rs) passed = passed_after rs (if r.success then passed else false)

abbrev pub has_error : StepResult → Bool
has_error r = elim r.error [ none ↦ false | some e ↦ not (is_empty e) ]

unfoldable pub holds : Value → List StepResult → Bool
unfolding value_eq
holds t results =
    if value_eq t (str "all_steps_passed")
    then all_passed results
    else if value_eq t (str "no_errors")
    then not (any has_error results)
    else true

-- `_check_assertions`: the results of the assertions, and whether the run still passes
unfoldable pub check_assertions :
    List Fields → List StepResult → Bool → Result (List Assertion × Bool)
unfolding holds at_key
check_assertions [] results passed = ok ([], passed)
check_assertions (a ∷ r) results passed = bind (at_key "type" (obj a)) λ t.
    (let passed' = passed && not (value_eq t (str "all_steps_passed") && not (holds t results)) in
      bind (check_assertions r results passed')
        λ rest. ok (record { type_text = t; passed = holds t results } ∷ rest.0, rest.1))

pub record RunResults : Type 0 where
  pub scenario : Value
  pub steps : List StepResult
  pub passed : Bool
  pub assertions : List Assertion

-- A list of mappings under a key, empty where it is missing.
mappings : Items → Result (List Fields)
mappings nil = ok []
mappings (cons v r) = bind (as_mapping v) λ f. bind (mappings r) λ rest. ok (f ∷ rest)

unfoldable pub mappings_at : String → Fields → Result (List Fields)
unfolding mappings as_mapping
mappings_at k scenario = elim (get_or k (arr nil) scenario) [
  | arr xs ↦ mappings xs
  | _ ↦ err "object is not iterable"
]

module _ (repr : Value → String) (int_of : Value → Result ℤ) (ahenk_count : ℤ) (A : Adapters)
    (reaches : ℤ → ℤ → Option Value → Result Bool) (rate_text : ℤ → ℤ → String) where
  unfoldable pub report_run : Value → Fields → List StepResult → Result RunResults
  unfolding check_assertions mappings_at passed_after
  report_run name scenario results = bind (mappings_at "assertions" scenario) λ assertions.
      bind (check_assertions assertions results (passed_after results true)) λ checked.
        ok (record { scenario = name; steps = results; passed = checked.1; assertions = checked.0 })

  -- What is read of a scenario before its first step.
  unfoldable pub read_scenario : Fields → Result (Value × List Fields)
  unfolding mappings_at at_key as_mapping
  read_scenario scenario = bind (at_key "name" (obj scenario)) λ name.
      bind (as_mapping (get_or "setup" (obj end) scenario))
        λ setup. bind (mappings_at "steps" scenario) λ steps. ok (name, steps)

  -- `run`, on the mapping that the file holds
  unfoldable pub run : Fields → RunnerState → A.World → Ran A.World RunResults
  unfolding run_steps report_run read_scenario
  run scenario s w =
      on_result (read_scenario scenario)
        (λ both.
          let steps = run_steps repr int_of ahenk_count A reaches rate_text both.1 s w in
          record {
            result = bind steps.result λ results. report_run both.0 scenario results;
            state = steps.state;
            world = steps.world;
          })
        (λ e. record { result = err e; state = s; world = w })
