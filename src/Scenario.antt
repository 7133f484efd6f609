-- ===== src/Scenario.antt =====
-- The scenario packs and their runtime checks: platform_runtime/scenario_runner.py and
-- platform/scenarios/scenario_loader.py. The YAML files are a parameter, which gives the mapping
-- that a file holds, and so is the registry of runners, each of which answers with a check:
-- an exception of a runner, which ends the report, is left out.
-- `repr` is what an f-string prints of a value with `!r`.
pub mod Active
pub mod Outcome
use liderahenk_test_platform.Base.{
  ℕ, ◌+◌, String, ◌<>◌, ◌≡◌, Bool, true, false, not, ◌&&◌, ◌||◌, Option, none, some, List, [], ◌∷◌,
  ◌++◌, ◌==◌, length, select, is_nil, contains, if◌then◌else◌,
}
use liderahenk_test_platform.Base.Text.{strip, is_empty}
use liderahenk_test_platform.Json.{
  Value, null, bool, num, str, arr, obj, Items, nil, cons, Fields, end, field, from_items, fields,
  has, get, lookup, put, texts, nat, value_eq, is_null,
}
use liderahenk_test_platform.Result.{Result, ok, err, ◌>>=◌}
use liderahenk_test_platform.Checks.{Check, build_check, passes}

-- Which of the contract's fields are not there.
unfoldable pub missing_fields : List String → Fields → List String
missing_fields names d = select (λ name. not (has name d)) names

-- A text that is not blank.
abbrev pub is_named : Value → Bool
is_named (str s) = not (is_empty (strip s))
is_named _ = false

module _ (repr : Value → String) where
  all_steps : String → List Value → Result (Unit {0})
  all_steps name [] = ok tt
  all_steps name (step ∷ r) =
      if is_named step
      then all_steps name r
      else err
          ("scenario pack " <> (repr (str name) <> (" contains an invalid step: " <> repr step)))

  abbrev requires_of : Value → Result Fields
  requires_of (obj r) = ok r
  requires_of v = err "the requires of a pack is no mapping"

  check_steps : String → Value → Result (Unit {0})
  unfolding all_steps
  check_steps name (arr (cons step r)) = all_steps name (step ∷ from_items r)
  check_steps name v =
      err ("scenario pack " <> (repr (str name) <> " must define a non-empty steps list"))

  no_missing : String → List String → Result (Unit {0})
  no_missing message names = if is_nil names then ok tt else err (message <> repr (texts names))

  -- `load_scenario_pack`; the contract is its two lists of names
  unfoldable pub load_scenario_pack :
      List String → List String → (String → Option Fields) → String → Result Fields
  unfolding check_steps missing_fields no_missing
  load_scenario_pack required_fields requires_fields read name = elim (read name) [
    | none ↦ err ("scenario pack not found: " <> name)
    | some scenario ↦ do
      _ ←
          no_missing ("scenario pack " <> (repr (str name) <> " missing required fields: "))
            (missing_fields required_fields scenario)
      requires ← requires_of (get "requires" scenario)
      _ ←
          no_missing ("scenario pack " <> (repr (str name) <> " missing requires fields: "))
            (missing_fields requires_fields requires)
      _ ← check_steps name (get "steps" scenario)
      ok scenario
  ]

  stripped : Fields → List Value → Result (List String)
  stripped pack [] = ok []
  stripped pack (str s ∷ r) =
      let rest = stripped pack r in
      if is_empty (strip s)
      then err (
          "scenario pack "
          <> (repr (get "name" pack) <> (" contains an invalid runtime check: " <> repr (str s))))
      else (rest >>= λ names. ok (strip s ∷ names))
  stripped pack (v ∷ r) = err (
      "scenario pack "
      <> (repr (get "name" pack) <> (" contains an invalid runtime check: " <> repr v)))

  runtime_checks_of : Fields → Value → Result (List String)
  unfolding stripped
  runtime_checks_of pack null = ok []
  runtime_checks_of pack (arr xs) = stripped pack (from_items xs)
  runtime_checks_of pack v =
      err ("scenario pack " <> (repr (get "name" pack) <> " must define runtime_checks as a list"))

  -- `_parse_runtime_checks`
  unfoldable pub parse_runtime_checks : Fields → Result (List String)
  unfolding runtime_checks_of
  parse_runtime_checks pack = runtime_checks_of pack (get "runtime_checks" pack)

-- The check of a runtime check that no runner has.
abbrev pub unregistered : String → String → Check
unregistered name runtime_check =
    build_check ("scenario:" <> (name <> (":" <> runtime_check))) "scenario"
      ("Scenario runtime check " <> (runtime_check <> " is registered")) false (str "missing")
      (str "registered") null

-- `merged_details`, before its last two keys
abbrev pub base_details : Value → Fields
base_details null = end
base_details (obj r) = r
base_details v = fields (("runnerDetails", v) ∷ [])

-- A runner's check as one of the scenario's.
unfoldable pub scenario_check : String → Check → Check
unfolding put
scenario_check name c = record c {
  id = "scenario:" <> (name <> (":" <> c.id));
  category = "scenario";
  details =
      obj (
        put "sourceCategory" (str c.category) (put "scenario" (str name) (base_details c.details)));
}

-- What the loop over the runtime checks adds: the checks, the identities of those that ran, and
-- whether one failed.
pub record Executed : Type 0 where
  pub checks : List Check
  pub ids : List String
  pub failed : Bool

-- What a scenario's entry in the report holds.
pub data Entry : Type 0 where
  load_error : String → Entry
  entry :
      (status required_profile : Value) (runtime_checks executed : List String) (step_count : ℕ)
      → Entry

-- One runtime check, before what follows it.
unfoldable pub run_one : String → String → Option Check → Executed → Executed
unfolding scenario_check
run_one name k none rest = record {
  checks = unregistered name k ∷ rest.checks;
  ids = rest.ids;
  failed = true;
}
run_one name k (some c) rest = record {
  checks = scenario_check name c ∷ rest.checks;
  ids = c.id ∷ rest.ids;
  failed = not (passes c) || rest.failed;
}

module _ (runners : String → Option Check) where
  unfoldable pub run_checks : String → List String → Executed
  unfolding run_one
  run_checks name [] = record { checks = []; ids = []; failed = false }
  run_checks name (k ∷ r) = run_one name k (runners k) (run_checks name r)

  module _ (repr : Value → String) (load : String → Result Fields) (topology_name : String) where
    abbrev pub profile_of : Fields → Value
    profile_of pack = lookup "topology_profile" (get "requires" pack)

    abbrev pub step_count : Fields → ℕ
    step_count pack = elim (get "steps" pack) [ arr xs ↦ length (from_items xs) | _ ↦ 0 ]

    abbrev pub contract_ok : Fields → List String → Bool
    contract_ok pack names = value_eq (profile_of pack) (str topology_name) && not (is_nil names)

    abbrev contract_check : String → Fields → List String → Check
    contract_check name pack names =
        build_check ("scenario:" <> (name <> ":contract")) "scenario"
          ("Scenario pack " <> (name <> " matches topology and defines runtime checks"))
          (contract_ok pack names)
          (obj (
            fields (
              ("topologyProfile", profile_of pack)
              ∷ ("runtimeChecks", texts names)
              ∷ ("stepCount", nat (step_count pack))
              ∷ [])))
          (obj (
            fields
              (("topologyProfile", str topology_name) ∷ ("runtimeChecks", str "non-empty") ∷ [])))
          null

    abbrev load_check : String → String → Check
    load_check name message =
        build_check ("scenario:" <> (name <> ":load")) "scenario"
          ("Scenario pack " <> (name <> " loads successfully")) false null null (str message)

    loaded : String → Result (Fields × List String)
    unfolding parse_runtime_checks
    loaded name = load name >>= λ pack. parse_runtime_checks repr pack >>= λ names. ok (pack, names)

    unfoldable pub scenario_entry : String → Fields → List String → Entry
    unfolding run_checks
    scenario_entry name pack names =
        entry
          (if not (contract_ok pack names) || (run_checks name names).failed
            then str "fail"
            else str "pass")
          (profile_of pack) names (run_checks name names).ids (step_count pack)

    -- One scenario of `collect_scenario_checks`: its checks and its entry.
    unfoldable pub run_scenario : String → Result (Fields × List String) → List Check × Entry
    unfolding scenario_entry
    run_scenario name (err message) = (load_check name message ∷ [], load_error message)
    run_scenario name (ok (pack, names)) = (
      contract_check name pack names ∷ (run_checks name names).checks,
      scenario_entry name pack names,
    )

    -- `collect_scenario_checks`, for the active scenarios.
    unfoldable pub collect_scenario_checks : List String → List Check × List (String × Entry)
    unfolding run_scenario loaded
    collect_scenario_checks [] = ([], [])
    collect_scenario_checks (name ∷ r) =
        let (checks, entries) = collect_scenario_checks r in
        let (own, e) = run_scenario name (loaded name) in (own ++ checks, (name, e) ∷ entries)
