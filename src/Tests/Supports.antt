-- ===== src/Tests/Supports.antt =====
-- The support of the steps, and the evidence of the mutations.
use liderahenk_test_platform.Base.{
  String, ◌≡◌, refl, Bool, true, false, not, ◌&&◌, Option, none, [], ◌∷◌, ◌==◌, any, contains,
  if◌then◌else◌,
}
use liderahenk_test_platform.Base.Sorted.{IsStrict}
use liderahenk_test_platform.Json.{Value, null, bool, str, obj, Fields, end, fields}
use liderahenk_test_platform.Access.{get_or}
use liderahenk_test_platform.Support.{Catalog, is_supported, mutation_step_capabilities}
use liderahenk_test_platform.Support.Mutation.{is_verified, mutation_rows, mutation_step_support}
use liderahenk_test_platform.Support.Verified.{mutation_step_support_lem}
use liderahenk_test_platform.Support.Summary.{
  Scenarios, load_error, loaded, SupportSummary, summary_of,
}
use liderahenk_test_platform.Support.Partition.{declares, summary_of_splits}
use liderahenk_test_platform.Support.Evidence.{
  Disk, absent, stored, stamped, write_ui_mutation_evidence, load_ui_mutation_evidence,
}
use liderahenk_test_platform.Support.Reread.{first_held, write-load}

abbrev steps_verified : Fields
steps_verified =
    fields (("create_user_via_ui", obj (fields (("runtimeVerified", bool true) ∷ []))) ∷ [])

abbrev evidence : Value
evidence = obj (fields (("verifiedSteps", obj steps_verified) ∷ []))

abbrev has_method : String → Bool
has_method name = name == "create_policy"

abbrev no_environ : String → Option String
no_environ name = none

abbrev catalog : Catalog
catalog = mutation_rows has_method no_environ true steps_verified mutation_step_capabilities

mutation_step_support_lem_example :
    (is_supported catalog "create_user_via_ui"
      ≡ (true && is_verified (get_or "create_user_via_ui" (obj end) steps_verified)))
    × (is_supported catalog "create_group_via_ui" ≡ has_method "create_user_group")
    × (is_supported catalog "assign_user_to_group_via_ui" ≡ has_method "create_user_group")
    × (is_supported catalog "create_policy_via_ui" ≡ has_method "create_policy")
    × (is_supported catalog "assign_policy_to_group_via_ui" ≡ has_method "execute_policy")
unfolding mutation_step_support
mutation_step_support_lem_example =
    mutation_step_support_lem has_method no_environ true evidence steps_verified catalog refl refl

abbrev scenarios : Scenarios
scenarios =
    (
      "users",
      loaded (record {
        active = true;
        required_topology = null;
        topology_match = false;
        declared_steps = "create_user_via_ui" ∷ [];
        mutation_steps = "create_user_via_ui" ∷ "create_group_via_ui" ∷ [];
        mutation_step_details = [];
        supported_mutation_steps = [];
        unsupported_mutation_steps = [];
        runtime_checks = [];
        missing_runtime_checks = [];
      }),
    )
    ∷ ("broken", load_error "no steps" true)
    ∷ []

abbrev summary : SupportSummary
summary = summary_of catalog [] scenarios

summary_of_splits_example :
    IsStrict summary.mutations.declared
    × (contains summary.mutations.declared "create_group_via_ui"
        ≡ any (declares "create_group_via_ui") scenarios)
    × (contains summary.mutations.supported "create_group_via_ui" ≡ (
        any (declares "create_group_via_ui") scenarios
        && is_supported catalog "create_group_via_ui"))
    × (contains summary.mutations.unsupported "create_group_via_ui" ≡ (
        any (declares "create_group_via_ui") scenarios
        && not (is_supported catalog "create_group_via_ui")))
summary_of_splits_example = summary_of_splits catalog [] scenarios "create_group_via_ui"

-- The first directory holds older evidence, and may not be written.
abbrev may : String → Bool
may path = path == "b"

abbrev shared : Disk
shared path = if path == "a" then stored (str "old") else absent

write-load_example :
    load_ui_mutation_evidence
      ("a" ∷ "b" ∷ [])
      (write_ui_mutation_evidence may "now" steps_verified ("a" ∷ "b" ∷ []) shared).1
    ≡ first_held may (obj (stamped "now" steps_verified)) ("a" ∷ "b" ∷ []) shared
write-load_example = write-load may "now" steps_verified ("a" ∷ "b" ∷ []) shared

-- The older file is read.
older_evidence :
    first_held may (obj (stamped "now" steps_verified)) ("a" ∷ "b" ∷ []) shared ≡ str "old"
older_evidence = refl

-- A file that is missing, or no JSON, is written and read.
written_evidence :
    first_held (λ path. true) (obj (stamped "now" steps_verified)) ("b" ∷ "a" ∷ []) shared
    ≡ obj (stamped "now" steps_verified)
written_evidence = refl
