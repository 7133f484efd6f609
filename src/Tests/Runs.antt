-- ===== src/Tests/Runs.antt =====
-- A run of the scenario runner.
use liderahenk_test_platform.Base.{
  ℕ, ◌+◌, String, ◌≡◌, refl, Bool, true, false, Option, none, List, [], ◌∷◌, All, length,
}
use liderahenk_test_platform.Json.{ℤ, pos, Value, str, arr, obj, Fields, end, fields, items}
use liderahenk_test_platform.Result.{Result, ok}
use liderahenk_test_platform.ComputerTree.{Nodes}
use liderahenk_test_platform.PolicyRoundtrip.{none_left}
use liderahenk_test_platform.Runner.{Adapters, StepResult, outcome, fresh}
use liderahenk_test_platform.Runner.Actions.{◌>>=◌}
use liderahenk_test_platform.Runner.Run.{RunResults, all_passed, holds, run, run_steps}
use liderahenk_test_platform.Runner.Progress.{stage_of}
use liderahenk_test_platform.Runner.Follows.{Follows, run_steps-Follows}
use liderahenk_test_platform.Runner.Order.{in_order, run_steps-in_order}
use liderahenk_test_platform.Runner.Passing.{run_passes}
use liderahenk_test_platform.Tests.Data.{plain}

abbrev says : {B : Type 0} → B → ℕ → Result B × ℕ
says b w = (ok b, w + 1)

-- Adapters that answer every call; the world counts the calls.
abbrev adapters : Adapters
adapters = record {
  World = ℕ;
  environ = λ name. none;
  health_check = says true;
  is_authenticated = says true;
  ldap_agent_count = says (pos 2);
  registered_count = says (pos 3);
  connected_count = says (pos 2);
  c_agent_count = says (pos 2);
  agent_list = says [];
  dashboard_info = says (obj end);
  computer_tree = says Nodes.nil;
  computer_entries = says none_left;
  agent_exists = λ id. says true;
  is_user_registered = λ id. says true;
  send_task = λ entry command parameters. says (pos 200);
  create_computer_group = λ name entry dn. says end;
  create_script_profile = λ label description script kind parameters. says made;
  create_policy = λ label description profile active. says made;
  execute_policy = λ id dn. says (pos 200);
  sleep_at_most_five = λ timeout. says tt;
}
  where
    made : Fields
    made = fields (("label", str "p") ∷ [])

abbrev int_of : Value → Result ℤ
int_of v = ok (pos 0)

abbrev reaches : ℤ → ℤ → Option Value → Result Bool
reaches a b v = ok true

abbrev rate_text : ℤ → ℤ → String
rate_text a b = "100%"

abbrev step_of : String → Fields
step_of action = fields (
    ("name", str action)
    ∷ ("action", str action)
    ∷ ("params", obj (fields (("label", str "p") ∷ [])))
    ∷ [])

abbrev two_steps : List Fields
two_steps = step_of "create_script_profile" ∷ step_of "create_policy" ∷ []

abbrev two_results : List StepResult
two_results =
    outcome true (str "p") (fields (("profile", obj (fields (("label", str "p") ∷ []))) ∷ []))
    ∷ outcome true (str "p") (fields (("policy", obj (fields (("label", str "p") ∷ []))) ∷ []))
    ∷ []

run_steps-in_order_example : in_order false false false two_steps two_results ≡ true
unfolding run_steps ◌>>=◌
run_steps-in_order_example =
    run_steps-in_order plain int_of (pos 2) adapters reaches rate_text two_steps 0 two_results refl

run_steps-Follows_example :
    Follows
      (stage_of fresh)
      two_steps
      two_results
      (stage_of (run_steps plain int_of (pos 2) adapters reaches rate_text two_steps fresh 0).state)
unfolding run_steps ◌>>=◌
run_steps-Follows_example =
    run_steps-Follows plain int_of (pos 2) adapters reaches rate_text two_steps fresh 0 two_results
      refl

abbrev scenario : Fields
scenario = fields (
    ("name", str "policy")
    ∷ (
      "steps",
      arr (items (obj (step_of "create_script_profile") ∷ obj (step_of "create_policy") ∷ [])),
    )
    ∷ ("assertions", arr (items (obj (fields (("type", str "all_steps_passed") ∷ [])) ∷ [])))
    ∷ [])

abbrev report : RunResults
report = record {
  scenario = str "policy";
  steps = two_results;
  passed = true;
  assertions = record { type_text = str "all_steps_passed"; passed = true } ∷ [];
}

run_passes_example :
    (length report.steps ≡ length two_steps)
    × (report.passed ≡ all_passed report.steps)
    × All (λ a. a.passed ≡ holds a.type_text report.steps) report.assertions
unfolding run ◌>>=◌
run_passes_example =
    run_passes plain int_of (pos 2) adapters reaches rate_text scenario fresh 0 (str "policy")
      two_steps report refl refl
