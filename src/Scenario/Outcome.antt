-- ===== src/Scenario/Outcome.antt =====
-- A scenario's status against the checks that it reports.
use liderahenk_test_platform.Base.{
  String, ◌<>◌, ◌≡◌, refl, sym, ap, ◌∙◌, Bool, true, false, not, ◌&&◌, Option, none, some, List, [],
  ◌∷◌, ◌++◌, map, all, arith, if◌then◌else◌,
}
use liderahenk_test_platform.Json.{Value, str, Fields, value_eq}
use liderahenk_test_platform.Result.{Result, ok, err}
use liderahenk_test_platform.Checks.{Check, build_check, passes}
use liderahenk_test_platform.Scenario.{
  scenario_check, Executed, Entry, load_error, entry, run_one, run_checks, contract_ok,
  scenario_entry, run_scenario, collect_scenario_checks,
}

abbrev pub entry_passes : Entry → Bool
entry_passes (load_error message) = false
entry_passes (entry status required_profile names executed step_count) =
    value_eq status (str "pass")

build_check-passes :
    (id category description : String) (b : Bool) (actual expected details : Value)
    → passes (build_check id category description b actual expected details) ≡ b
unfolding build_check
build_check-passes id category description true actual expected details = refl
build_check-passes id category description false actual expected details = refl

status_passes : (b : Bool) → value_eq (if b then str "fail" else str "pass") (str "pass") ≡ not b
unfolding value_eq
status_passes true = refl
status_passes false = refl

run_one-failed :
    (name k : String) (o : Option Check) (rest : Executed)
    → rest.failed ≡ not (all passes rest.checks)
    → (run_one name k o rest).failed ≡ not (all passes (run_one name k o rest).checks)
unfolding run_one scenario_check build_check
run_one-failed name k none rest h = refl
run_one-failed name k (some c) rest h = ground (arith, h)

module _ (runners : String → Option Check) where
  -- A scenario fails by a check exactly when one of the checks that it reports does not pass.
  run_checks-failed :
      (name : String) (names : List String)
      → (run_checks runners name names).failed
        ≡ not (all passes (run_checks runners name names).checks)
  unfolding run_checks
  run_checks-failed name [] = refl
  run_checks-failed name (k ∷ r) =
      run_one-failed name k (runners k) (run_checks runners name r) (run_checks-failed name r)

  module _ (repr : Value → String) (load : String → Result Fields) (topology_name : String) where
    run_scenario-passes :
        (name : String) (r : Result (Fields × List String))
        → entry_passes (run_scenario runners repr load topology_name name r).1
          ≡ all passes (run_scenario runners repr load topology_name name r).0
    unfolding run_scenario scenario_entry
    run_scenario-passes name (err message) =
        sym (ap (λ b. b && true) (build_check-passes _ _ _ false _ _ _))
    run_scenario-passes name (ok (pack, names)) =
        status_passes _
        ∙ rw
            (
              build_check-passes ("scenario:" <> (name <> ":contract")) "scenario" _
                  (contract_ok runners repr load topology_name pack names) _ _ _,
              run_checks-failed name names,
            )
            (ground arith)

    all-append {ℓ} :
        {A : Type ℓ} (p : A → Bool) (xs ys : List A) → all p (xs ++ ys) ≡ (all p xs && all p ys)
    all-append p [] ys = refl
    all-append p (x ∷ xs) ys = ground (arith, all-append p xs ys)

    -- The report of the scenarios has an entry for each active scenario, in their order, and every
    -- entry has the status `pass` exactly when every check that is reported passes.
    pub collect_scenario_checks_lem :
        (names : List String)
        → (map
              (λ (e : String × Entry). e.0)
              (collect_scenario_checks runners repr load topology_name names).1
            ≡ names)
          × (all
                (λ (e : String × Entry). entry_passes e.1)
                (collect_scenario_checks runners repr load topology_name names).1
              ≡ all passes (collect_scenario_checks runners repr load topology_name names).0)
    unfolding collect_scenario_checks
    collect_scenario_checks_lem [] = (refl, refl)
    collect_scenario_checks_lem (name ∷ r) =
        let (named, passed) = collect_scenario_checks_lem r in
        (ap (λ l. name ∷ l) named, rw (all-append, run_scenario-passes, passed) refl)
