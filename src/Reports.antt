-- ===== src/Reports.antt =====
-- The readiness reports: `_run_pytest_check`, `collect_runtime_core_report` and
-- `collect_runtime_operational_report` of platform_runtime/readiness/__init__.py. The gates that are
-- not in ParityGate.antt are calls in a world, and so are the test suites. An exception of such a
-- call, which ends the report, and the topology and the support in the reports are left out.
pub mod Status
use liderahenk_test_platform.Base.{ℕ, String, Bool, List, [], ◌∷◌, ◌++◌, map, eqb, if◌then◌else◌}
use liderahenk_test_platform.Json.{ℤ, pos, Value, num, str, obj, fields, int_eq}
use liderahenk_test_platform.Checks.{Check, build_check, Summary, summarize_checks}
use liderahenk_test_platform.ParityGate.{Answer, registration_parity_check}

-- A test suite, as the report asks for it.
pub record Suite : Type 0 where
  pub id : String
  pub description : String
  pub path : String
  pub timeout : ℕ

-- What `subprocess.run` answers: the tails are the last twelve lines of the outputs.
pub record Completed : Type 0 where
  pub returncode : ℤ
  pub duration : Value
  pub stdout_tail : String
  pub stderr_tail : String

abbrev pub succeeded : Completed → Bool
succeeded c = int_eq c.returncode (pos 0)

unfoldable pub run_pytest_check : Suite × Completed → Check
unfolding build_check
run_pytest_check (suite, result) =
    build_check suite.id "ui" suite.description (succeeded result) (num result.returncode)
      (num (pos 0))
      (obj (
        fields (
          ("durationSeconds", result.duration)
          ∷ ("stdoutTail", str result.stdout_tail)
          ∷ ("stderrTail", str result.stderr_tail)
          ∷ [])))

abbrev suite : String → String → String → Suite
suite id description path = record {
  id = id;
  description = description;
  path = path;
  timeout = 180;
}

abbrev pub ui_suites : List Suite
ui_suites =
    suite "ui_agent_visibility" "Computer management UI shows registered agents consistently"
      "tests/e2e/specs/management/test_agent_registration.py"
    ∷ suite "ui_dashboard_summary_parity"
        "Dashboard summary cards match the official dashboard backend metrics"
        "tests/e2e/specs/auth/test_dashboard_summary.py"
    ∷ suite "ui_computer_information_inventory"
        "Computer information inventory fields match the official backend inventory surfaces"
        "tests/e2e/specs/management/test_computer_information.py"
    ∷ suite "ui_script_task_dispatch"
        "Script task flow is reachable from UI and dispatches from backend"
        "tests/e2e/specs/management/test_send_task.py"
    ∷ suite "ui_task_history_reflects_command_history"
        "Task history UI reflects recent backend command history entries"
        "tests/e2e/specs/management/test_task_history.py"
    ∷ []

pub record Report : Type 0 where
  pub report_type : String
  pub status : String
  pub profile : String
  pub expected_agents : ℤ
  pub generated_at : String
  pub checks : List Check
  pub summary : Summary

-- The keys that both reports have.
unfoldable pub report_of : String → String → ℤ → String → List Check → Report
unfolding summarize_checks
report_of report_type profile expected now checks = record {
  report_type = report_type;
  status = if eqb (summarize_checks checks).failed 0 then "pass" else "fail";
  profile = profile;
  expected_agents = expected;
  generated_at = now;
  checks = checks;
  summary = summarize_checks checks;
}

-- The checks of the host's ports are diagnostics, and not among the checks of the report.
unfoldable pub collect_runtime_core_report :
    String
    → ℤ
    → String
    → (service_checks connectivity_checks diagnostic_checks : List Check) → Report × List Check
unfolding report_of
collect_runtime_core_report profile expected started service_checks connectivity_checks ports = (
  report_of "runtime-core" profile expected started (service_checks ++ connectivity_checks),
  ports,
)

-- The calls of the operational report.
pub record Gates (W : Type 0) : Type 0 where
  pub collect : W → Answer × W
  pub sleep : W → W
  pub policy_roundtrip : W → Check × W
  pub scenario_checks : W → (List Check × Value) × W
  pub pytest : Suite → W → Completed × W
  pub observability_checks : W → List Check × W
  pub now : W → String

-- What the gates answered, in the order of their calls.
pub record Gated : Type 0 where
  pub parity : Check
  pub roundtrip : Check
  pub scenarios : List Check
  pub scenario_report : Value
  pub suites : List (Suite × Completed)
  pub observability : List Check

-- `checks`, as they were appended
abbrev pub gate_checks : Gated → List Check
gate_checks g =
    g.parity ∷ g.roundtrip ∷ (g.scenarios ++ (map run_pytest_check g.suites ++ g.observability))

module _ {W : Type 0} (e : Gates W) where
  unfoldable pub run_suites : List Suite → W → List (Suite × Completed) × W
  run_suites [] w = ([], w)
  run_suites (s ∷ r) w =
      let (result, v) = e.pytest s w in let (rest, u) = run_suites r v in ((s, result) ∷ rest, u)

  unfoldable pub run_gates : ℤ → W → Gated × W
  unfolding registration_parity_check run_suites
  run_gates expected w =
      let (parity, w1) = registration_parity_check e.collect e.sleep expected w in
      let (roundtrip, w2) = e.policy_roundtrip w1 in
      let (scenarios, w3) = e.scenario_checks w2 in
      let (suites, w4) = run_suites ui_suites w3 in
      let (observability, w5) = e.observability_checks w4 in
      (
        record {
          parity = parity;
          roundtrip = roundtrip;
          scenarios = scenarios.0;
          scenario_report = scenarios.1;
          suites = suites;
          observability = observability;
        },
        w5,
      )

  unfoldable pub collect_runtime_operational_report : String → ℤ → W → Report × Value × W
  unfolding run_gates report_of run_pytest_check
  collect_runtime_operational_report profile expected w =
      let (g, v) = run_gates expected w in
      (
        report_of "runtime-operational" profile expected (e.now v) (gate_checks g),
        g.scenario_report,
        v,
      )
