-- ===== src/Support/Partition.antt =====
-- The summary of the steps splits those that are declared.
use liderahenk_test_platform.Base.{
  String, ◌≡◌, refl, ◌∙◌, ap, Bool, true, false, not, ◌&&◌, ◌||◌, List, [], ◌∷◌, contains,
  contains-append, contains-select, any, if◌then◌else◌,
}
use liderahenk_test_platform.Base.Sorted.{
  sorted_keys, contains-sorted_keys, IsStrict, sorted_keys-IsStrict,
}
use liderahenk_test_platform.Support.{Catalog, is_supported}
use liderahenk_test_platform.Support.Summary.{
  ScenarioEntry, Scenarios, is_active, mutations_in, when_active, gather, supported_of,
  unsupported_of, summarize_steps, summary_of,
}

-- An active scenario declares the mutation step.
abbrev pub declares : String → String × ScenarioEntry → Bool
declares step named = is_active named.1 && contains (mutations_in named.1) step

contains-gather :
    (scenarios : Scenarios) (step : String)
    → contains (gather (when_active mutations_in) scenarios) step ≡ any (declares step) scenarios
unfolding gather
contains-gather [] step = refl
contains-gather ((name, s) ∷ r) step =
    contains-append (when_active mutations_in s) (gather (when_active mutations_in) r) step
    ∙ by_active (is_active s) (contains-gather r step)
  where
    by_active :
        (b : Bool)
        → contains (gather (when_active mutations_in) r) step ≡ any (declares step) r
        → (contains (if b then mutations_in s else []) step
            || contains (gather (when_active mutations_in) r) step)
          ≡ (b && contains (mutations_in s) step || any (declares step) r)
    by_active true ih = rw ih refl
    by_active false ih = ih

contains-supported_of :
    (catalog : Catalog) (steps : List String) (step : String)
    → contains (supported_of catalog steps) step
      ≡ (contains steps step && is_supported catalog step)
contains-supported_of catalog steps step = contains-select (is_supported catalog) steps step

contains-unsupported_of :
    (catalog : Catalog) (steps : List String) (step : String)
    → contains (unsupported_of catalog steps) step
      ≡ (contains steps step && not (is_supported catalog step))
contains-unsupported_of catalog steps step =
    contains-select (λ a. not (contains (supported_of catalog steps) a)) steps step
    ∙ ap (λ b. contains steps step && not b) (contains-supported_of catalog steps step)
    ∙ without_both (contains steps step) (is_supported catalog step)
  where
    without_both : (c s : Bool) → (c && not (c && s)) ≡ (c && not s)
    without_both true s = refl
    without_both false s = refl

-- In a summary the declared mutation steps are, strictly in order, those that an active scenario
-- declares, and each of them is either supported, if the catalog says so, or unsupported.
pub summary_of_splits :
    (catalog : Catalog) (runners : List String) (scenarios : Scenarios) (step : String)
    → IsStrict (summary_of catalog runners scenarios).mutations.declared
      × (contains (summary_of catalog runners scenarios).mutations.declared step
          ≡ any (declares step) scenarios)
      × (contains (summary_of catalog runners scenarios).mutations.supported step
          ≡ (any (declares step) scenarios && is_supported catalog step))
      × (contains (summary_of catalog runners scenarios).mutations.unsupported step
          ≡ (any (declares step) scenarios && not (is_supported catalog step)))
unfolding summary_of summarize_steps
summary_of_splits catalog runners scenarios step =
    let all_steps = gather (when_active mutations_in) scenarios in
    let declared = contains-sorted_keys all_steps step ∙ contains-gather scenarios step in
    (
      sorted_keys-IsStrict all_steps,
      declared,
      contains-supported_of catalog (sorted_keys all_steps) step
          ∙ ap (λ b. b && is_supported catalog step) declared,
      contains-unsupported_of catalog (sorted_keys all_steps) step
          ∙ ap (λ b. b && not (is_supported catalog step)) declared,
    )
