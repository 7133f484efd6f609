-- ===== src/Support/Summary.antt =====
-- The summaries of the support: `session_support_summary` and `support_summary` of
-- platform_runtime/readiness/mutation_support.py, and `collect_scenario_support_summary` of
-- platform_runtime/scenario_runner.py. A pack that was loaded has texts as its steps.
use liderahenk_test_platform.Base.{
  String, Bool, true, false, not, ◌||◌, Option, none, some, List, [], ◌∷◌, ◌++◌, contains, select,
  if◌then◌else◌,
}
use liderahenk_test_platform.Base.Text.{has_text}
use liderahenk_test_platform.Base.Sorted.{sorted_keys, from_keys}
use liderahenk_test_platform.Json.{
  Value, bool, str, arr, obj, Fields, fields, get, from_items, value_eq, truthy,
}
use liderahenk_test_platform.Access.{at_key}
use liderahenk_test_platform.Result.{Result, ok, ◌>>=◌, on_result}
use liderahenk_test_platform.Scenario.{load_scenario_pack, parse_runtime_checks}
use liderahenk_test_platform.Support.{Catalog, row_of, is_supported, session_step_support}
use liderahenk_test_platform.Support.Mutation.{mutation_step_support}

-- What the summary says of a scenario that was loaded.
pub record ScenarioSupport : Type 0 where
  pub active : Bool
  pub required_topology : Value
  pub topology_match : Bool
  pub declared_steps : List String
  pub mutation_steps : List String
  pub mutation_step_details : Catalog
  pub supported_mutation_steps : List String
  pub unsupported_mutation_steps : List String
  pub runtime_checks : List String
  pub missing_runtime_checks : List String

pub data ScenarioEntry : Type 0 where
  load_error : (error : String) (active : Bool) → ScenarioEntry
  loaded : ScenarioSupport → ScenarioEntry

abbrev pub Scenarios : Type 0
Scenarios = List (String × ScenarioEntry)

abbrev pub is_active : ScenarioEntry → Bool
is_active (load_error e b) = b
is_active (loaded s) = s.active

-- `scenario.get("declaredSteps", [])`, and `mutationSteps`: an entry that was not loaded has neither.
abbrev pub declared_in : ScenarioEntry → List String
declared_in (load_error e b) = []
declared_in (loaded s) = s.declared_steps

abbrev pub mutations_in : ScenarioEntry → List String
mutations_in (load_error e b) = []
mutations_in (loaded s) = s.mutation_steps

-- `[step for step in steps if …supported]`, and the steps that are not in it.
abbrev pub supported_of : Catalog → List String → List String
supported_of catalog steps = select (is_supported catalog) steps

abbrev pub unsupported_of : Catalog → List String → List String
unsupported_of catalog steps =
    select (λ step. not (contains (supported_of catalog steps) step)) steps

abbrev pub is_known : Catalog → String → Bool
is_known catalog step = elim (row_of step catalog) [ none ↦ false | some r ↦ true ]

-- The steps that scenarios declare and the catalog knows.
abbrev known_in : Catalog → ScenarioEntry → List String
known_in catalog s = select (is_known catalog) (declared_in s)

unfoldable pub gather : (ScenarioEntry → List String) → Scenarios → List String
gather steps [] = []
gather steps ((name, s) ∷ r) = steps s ++ gather steps r

-- Only where the scenario is active.
abbrev pub when_active : (ScenarioEntry → List String) → ScenarioEntry → List String
when_active steps s = if is_active s then steps s else []

unfoldable pub active_session_scenarios : Catalog → Scenarios → List String
active_session_scenarios catalog [] = []
active_session_scenarios catalog ((name, s) ∷ r) =
    let rest = active_session_scenarios catalog r in
    elim (known_in catalog s) [ [] ↦ rest | x ∷ xs ↦ if is_active s then name ∷ rest else rest ]

-- `catalog.get(step, {"supported": False})`, step by step
abbrev row_or_default : Option Fields → Fields
row_or_default none = fields (("supported", bool false) ∷ [])
row_or_default (some r) = r

unfoldable pub rows_for : Catalog → List String → Catalog
unfolding row_of
rows_for catalog [] = []
rows_for catalog (step ∷ r) = (step, row_or_default (row_of step catalog)) ∷ rows_for catalog r

-- The keys of a summary about steps.
pub record StepSummary : Type 0 where
  pub declared : List String
  pub supported : List String
  pub unsupported : List String
  pub catalog_declared : List String
  pub catalog_supported : List String
  pub catalog_unsupported : List String
  pub declared_rows : Catalog
  pub catalog_rows : Catalog

-- The summary of the steps of the active scenarios, and of all scenarios.
unfoldable pub summarize_steps : Catalog → List String → List String → StepSummary
unfolding rows_for is_supported
summarize_steps catalog declared all_declared = record {
  declared = declared;
  supported = supported_of catalog declared;
  unsupported = unsupported_of catalog declared;
  catalog_declared = all_declared;
  catalog_supported = supported_of catalog all_declared;
  catalog_unsupported = unsupported_of catalog all_declared;
  declared_rows = rows_for catalog declared;
  catalog_rows = rows_for catalog all_declared;
}

-- `session_support_summary`
unfoldable pub session_support_summary : Scenarios → List String → List String × StepSummary
unfolding session_step_support active_session_scenarios gather summarize_steps sorted_keys
session_support_summary scenarios available =
    (let catalog = session_step_support available in
      (
        active_session_scenarios catalog scenarios,
        summarize_steps catalog (sorted_keys (gather (when_active (known_in catalog)) scenarios))
            (sorted_keys (gather (known_in catalog) scenarios)),
      ))

pub record SupportSummary : Type 0 where
  pub scenarios : Scenarios
  pub mutation_catalog : Catalog
  pub mutations : StepSummary
  pub sessions : List String × StepSummary

-- The summary from the catalog and the scenarios.
unfoldable pub summary_of : Catalog → List String → Scenarios → SupportSummary
unfolding summarize_steps session_support_summary gather sorted_keys
summary_of catalog runners scenarios = record {
  scenarios = scenarios;
  mutation_catalog = catalog;
  mutations =
      summarize_steps catalog (sorted_keys (gather (when_active mutations_in) scenarios))
        (sorted_keys (gather mutations_in scenarios));
  sessions = session_support_summary scenarios ("ui_agent_visibility" ∷ runners);
}

-- The steps of a pack, which are texts.
abbrev text_items : List Value → List String
text_items [] = []
text_items (str s ∷ r) = s ∷ text_items r
text_items (v ∷ r) = text_items r

abbrev list_of : Value → List Value
list_of (arr xs) = from_items xs
list_of _ = []

module _ (repr : Value → String) (required_fields requires_fields : List String)
    (read : String → Option Fields) where
  -- The entry of a loaded pack; a pack without the topology raises.
  unfoldable pub support_entry :
      List String
      → String
      → List String
      → Catalog
      → String
      → Fields
      → List String
      → Result ScenarioEntry
  unfolding at_key has_text is_supported value_eq rows_for from_keys
  support_entry active topology registry catalog name pack checks = do
    requires ← at_key "requires" (obj pack)
    profile ← at_key "topology_profile" requires
    ok (
        let steps = text_items (list_of (get "steps" pack)) in
        let mutations = select (has_text "_via_") steps in
        loaded (record {
          active = contains active name;
          required_topology = profile;
          topology_match = value_eq profile (str topology);
          declared_steps = steps;
          mutation_steps = mutations;
          mutation_step_details = rows_for catalog (from_keys mutations);
          supported_mutation_steps = supported_of catalog mutations;
          unsupported_mutation_steps = unsupported_of catalog mutations;
          runtime_checks = checks;
          missing_runtime_checks = select (λ check. not (contains registry check)) checks;
        }))

  abbrev read_pack : String → Result (Fields × List String)
  read_pack name = load_scenario_pack repr required_fields requires_fields read name >>= λ pack.
      parse_runtime_checks repr pack >>= λ checks. ok (pack, checks)

  -- `collect_scenario_support_summary`, its `scenarios`
  unfoldable pub collect_scenario_support_summary :
      List String → String → List String → Catalog → List String → Result Scenarios
  unfolding support_entry load_scenario_pack parse_runtime_checks
  collect_scenario_support_summary active topology registry catalog [] = ok []
  collect_scenario_support_summary active topology registry catalog (name ∷ r) = do
    entry ←
        on_result (read_pack name)
          (λ both. support_entry active topology registry catalog name both.0 both.1)
          (λ e. ok (load_error e (contains active name)))
    rest ← collect_scenario_support_summary active topology registry catalog r
    ok ((name, entry) ∷ rest)

  -- `support_summary`: `passed` are the scenarios of the report with the status "pass"
  unfoldable pub support_summary :
      (String → Bool)
      → (String → Option String)
      → Value
      → List String
      → List String
      → List String
      → List String
      → String
      → Result SupportSummary
  unfolding mutation_step_support collect_scenario_support_summary summary_of
  support_summary has_method environ evidence passed active available runners topology = do
    catalog ←
        mutation_step_support has_method environ
          (truthy evidence || contains passed "ui-user-policy-roundtrip") evidence
    scenarios ←
        collect_scenario_support_summary active topology (sorted_keys runners) catalog available
    ok (summary_of catalog runners scenarios)
