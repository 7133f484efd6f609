-- ===== src/Reports/Status.antt =====
-- When a readiness report passes.
use mathlib.Core.Bool.{false≢true}
use liderahenk_test_platform.Base.{
  String, ◌≡◌, ◌↔◌, refl, Bool, true, false, ◌&&◌, List, [], ◌∷◌, ◌++◌, map, all, eqb, eqb_iff,
  eq_iff, arith, if◌then◌else◌,
}
use liderahenk_test_platform.Json.{ℤ}
use liderahenk_test_platform.Checks.{Check, passes, summarize_checks}
use liderahenk_test_platform.Checks.Counts.{status_passes, summarize_checks_lem}
use liderahenk_test_platform.ParityGate.{registration_parity_check}
use liderahenk_test_platform.ParityGate.Attempts.{FirstAgrees, registration_parity_check_lem}
use liderahenk_test_platform.Reports.{
  Suite, Completed, succeeded, run_pytest_check, report_of, Gates, Gated, gate_checks, run_gates,
  collect_runtime_core_report, collect_runtime_operational_report,
}

all-append : (xs ys : List Check) → all passes (xs ++ ys) ≡ (all passes xs && all passes ys)
all-append [] ys = refl
all-append (x ∷ xs) ys = ground (arith, all-append xs ys)

passes-run_pytest_check :
    (s : Suite) (c : Completed) → passes (run_pytest_check (s, c)) ≡ succeeded c
unfolding run_pytest_check
passes-run_pytest_check s c = status_passes (succeeded c)

-- Every suite returned 0.
abbrev pub all_succeeded : List (Suite × Completed) → Bool
all_succeeded [] = true
all_succeeded ((s, c) ∷ r) = succeeded c && all_succeeded r

all-run_pytest_check :
    (suites : List (Suite × Completed))
    → all passes (map run_pytest_check suites) ≡ all_succeeded suites
all-run_pytest_check [] = refl
all-run_pytest_check ((s, c) ∷ r) =
    ground (arith, passes-run_pytest_check s c, all-run_pytest_check r)

status_of : (b : Bool) → (◌≡◌ {A = String} (if b then "pass" else "fail") "pass") ↔ (b ≡ true)
status_of true = (λ h. refl, λ h. refl)
status_of false = (λ h. (eq_iff "fail" "pass").1 h, λ h. absurd (false≢true h))

report_of-status :
    (report_type profile : String) (expected : ℤ) (now : String) (checks : List Check)
    → ((report_of report_type profile expected now checks).status ≡ "pass")
      ↔ (all passes checks ≡ true)
unfolding report_of
report_of-status report_type profile expected now checks =
    let counted = (summarize_checks_lem checks).1 in
    let failed = eqb_iff (summarize_checks checks).failed 0 in
    let status = status_of (eqb (summarize_checks checks).failed 0) in
    (λ h. counted.0 (failed.0 (status.0 h)), λ h. status.1 (failed.1 (counted.1 h)))

-- A core report passes exactly when the services and the connections pass, whatever the ports are.
collect_runtime_core_report_pass :
    (profile : String) (expected : ℤ) (started : String) (services connections ports : List Check)
    → ((collect_runtime_core_report profile expected started services connections ports).0.status
        ≡ "pass")
      ↔ ((all passes services ≡ true) × (all passes connections ≡ true))
unfolding collect_runtime_core_report
collect_runtime_core_report_pass profile expected started services connections ports =
    let status =
      report_of-status "runtime-core" profile expected started (services ++ connections) in
    (
      λ h. ground (arith, status.0 h, all-append services connections),
      λ h. status.1 (ground (arith, h, all-append services connections)),
    )

gate_checks-pass :
    (g : Gated)
    → (all passes (gate_checks g) ≡ true) ↔ (
        (passes g.parity ≡ true)
        × (passes g.roundtrip ≡ true)
        × (all passes g.scenarios ≡ true)
        × (all_succeeded g.suites ≡ true)
        × (all passes g.observability ≡ true))
gate_checks-pass g = ground (
  arith,
  all-append g.scenarios (map run_pytest_check g.suites ++ g.observability),
  all-append (map run_pytest_check g.suites) g.observability,
  all-run_pytest_check g.suites,
)

-- An operational report passes exactly when the registration check finds the agreement of all
-- surfaces in one of three attempts, and the round trip, the checks of the scenarios, the test suites
-- of the interface and the checks of observability, in the worlds where they run, all pass.
pub collect_runtime_operational_report_pass :
    {W : Type 0} (e : Gates W) (profile : String) (expected : ℤ) (w : W)
    → ((collect_runtime_operational_report e profile expected w).0.status ≡ "pass") ↔ (
        FirstAgrees e.collect e.sleep expected 3 1 w
          ((registration_parity_check e.collect e.sleep expected w).1)
        × (passes ((run_gates e expected w).0.roundtrip) ≡ true)
        × (all passes ((run_gates e expected w).0.scenarios) ≡ true)
        × (all_succeeded ((run_gates e expected w).0.suites) ≡ true)
        × (all passes ((run_gates e expected w).0.observability) ≡ true))
unfolding collect_runtime_operational_report run_gates
collect_runtime_operational_report_pass e profile expected w =
    let g = (run_gates e expected w).0 in
    let status =
      report_of-status "runtime-operational" profile expected (e.now (run_gates e expected w).1)
        (gate_checks g) in
    let parity = registration_parity_check_lem e.collect e.sleep expected w in
    let split = gate_checks-pass g in
    (
      λ h. let a = split.0 (status.0 h) in (parity.0 (a.0), a.1, a.2, a.3, a.4),
      λ h. status.1 (split.1 (parity.1 (h.0), h.1, h.2, h.3, h.4)),
    )
