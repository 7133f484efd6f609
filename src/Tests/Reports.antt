-- ===== src/Tests/Reports.antt =====
-- An operational report in which the first collection raises and all else passes.
use liderahenk_test_platform.Base.{ℕ, suc, ◌≡◌, ◌↔◌, refl, true, [], all}
use liderahenk_test_platform.Json.{pos, null, value_eq}
use liderahenk_test_platform.Checks.{build_check, passes}
use liderahenk_test_platform.Verdict.{taxonomy_of, names_of, checks_of}
use liderahenk_test_platform.ParityGate.{registration_parity_check}
use liderahenk_test_platform.ParityGate.Attempts.{FirstAgrees}
use liderahenk_test_platform.Reports.{Gates, run_gates, collect_runtime_operational_report}
use liderahenk_test_platform.Reports.Status.{all_succeeded, collect_runtime_operational_report_pass}
use liderahenk_test_platform.Tests.Gates.{collect}

abbrev gates : Gates ℕ
gates = record {
  collect = collect;
  sleep = λ w. w;
  policy_roundtrip =
      λ w. (build_check "policy_roundtrip" "scenario" "round trip" true null null null, suc w);
  scenario_checks = λ w. (([], null), suc w);
  pytest = λ s w.
      (record { returncode = pos 0; duration = null; stdout_tail = ""; stderr_tail = "" }, suc w);
  observability_checks = λ w. ([], suc w);
  now = λ w. "2026-01-01T00:00:09Z";
}

report_passes : (collect_runtime_operational_report gates "dev-fast" (pos 1) 0).0.status ≡ "pass"
unfolding collect_runtime_operational_report taxonomy_of names_of checks_of value_eq
report_passes = refl

collect_runtime_operational_report_pass_example :
    ((collect_runtime_operational_report gates "dev-fast" (pos 1) 0).0.status ≡ "pass") ↔ (
      FirstAgrees gates.collect gates.sleep
        (pos 1)
        3
        1
        0
        ((registration_parity_check gates.collect gates.sleep (pos 1) 0).1)
      × (passes ((run_gates gates (pos 1) 0).0.roundtrip) ≡ true)
      × (all passes ((run_gates gates (pos 1) 0).0.scenarios) ≡ true)
      × (all_succeeded ((run_gates gates (pos 1) 0).0.suites) ≡ true)
      × (all passes ((run_gates gates (pos 1) 0).0.observability) ≡ true))
collect_runtime_operational_report_pass_example =
    collect_runtime_operational_report_pass gates "dev-fast" (pos 1) 0
