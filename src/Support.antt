-- ===== src/Support.antt =====
-- Which steps of the scenarios the platform supports: platform_runtime/readiness/mutation_support.py.
-- The rules are the two tables of the source; whether the adapter has a method, and the environment,
-- are parameters.
pub mod Mutation
pub mod Evidence
pub mod Summary
pub mod Partition
pub mod Verified
pub mod Reread
use liderahenk_test_platform.Base.{
  String, ◌<>◌, Bool, true, false, not, ◌&&◌, ◌||◌, Option, none, some, List, [], ◌∷◌, ◌++◌, ◌==◌,
  contains, is_nil, if◌then◌else◌,
}
use liderahenk_test_platform.Base.Text.{strip, is_empty}
use liderahenk_test_platform.Json.{
  Value, null, bool, num, str, arr, obj, Items, nil, cons, items, Fields, end, field, fields, has,
  get, put, is_dict, value_eq,
}
use liderahenk_test_platform.Access.{as_mapping, get_or}
use liderahenk_test_platform.Result.{Result, ok, err, ◌>>=◌}

-- `conditionalMode`
pub record ConditionalMode : Type 0 where
  pub name : String
  pub adapter_method : String
  pub capability_env : String
  pub capability_method : String

-- A rule of the mutation steps, by the branch of the loop that reads it.
pub data MutationRule : Type 0 where
  plain : (adapter_method surface : String) → MutationRule
  creation : (adapter_method surface capability_env capability_method : String) → MutationRule
  assignment : (adapter_method surface mode note : String) → ConditionalMode → MutationRule

-- `MUTATION_STEP_CAPABILITIES`
abbrev pub mutation_step_capabilities : List (String × MutationRule)
mutation_step_capabilities =
    (
      "create_user_via_ui",
      creation "create_directory_user" "directory_user" "LIDER_DIRECTORY_USER_CREATE_ENDPOINT"
          "supports_directory_user_create",
    )
    ∷ ("create_group_via_ui", plain "create_user_group" "user_group")
    ∷ (
      "assign_user_to_group_via_ui",
      assignment "create_user_group" "user_group_membership" "membership_on_group_create"
          ("Official create-new-group flow accepts checked user entries, so the first "
            <> "membership assignment is supported during group creation.")
          (record {
            name = "existing_group_membership_update";
            adapter_method = "add_directory_entries_to_user_group";
            capability_env = "LIDER_USER_GROUP_ADD_MEMBER_ENDPOINT";
            capability_method = "supports_user_group_membership_update";
          }),
    )
    ∷ ("create_policy_via_ui", plain "create_policy" "policy")
    ∷ ("assign_policy_to_group_via_ui", plain "execute_policy" "policy_assignment")
    ∷ []

pub record SessionRule : Type 0 where
  pub surface : String
  pub supported : Bool
  pub runtime_check : Option String
  pub operational_check : Option String
  pub mode : Option String
  pub note : Option String

-- `SESSION_STEP_CAPABILITIES`
abbrev pub session_step_capabilities : List (String × SessionRule)
session_step_capabilities =
    (
      "simulate_login",
      record {
        surface = "session_login";
        supported = false;
        runtime_check = some "ui_login";
        operational_check = none;
        mode = none;
        note = none;
      },
    )
    ∷ (
      "verify_effect",
      record {
        surface = "session_effect";
        supported = true;
        runtime_check = some "policy_effect_probe";
        operational_check = none;
        mode = some "policy_command_history";
        note = some (
            "Post-login business-effect verification probe. Executes a lightweight "
            <> ("policy roundtrip and verifies the command execution result appears in "
                <> "the command history API, proving a real observable side-effect."));
      },
    )
    ∷ (
      "collect_ui_tree_snapshot",
      record {
        surface = "ui_tree_snapshot";
        supported = true;
        runtime_check = none;
        operational_check = some "ui_agent_visibility";
        mode = some "runtime_operational_snapshot";
        note = some "Runtime operational checks already verify the UI tree visibility lane.";
      },
    )
    ∷ (
      "collect_membership_snapshot",
      record {
        surface = "membership_snapshot";
        supported = false;
        runtime_check = some "membership_snapshot_contract";
        operational_check = none;
        mode = some "user_group_tree_summary";
        note = some (
            "Membership evidence is collected as a lightweight summary from the "
            <> "user-group tree returned by the official Lider API surface.");
      },
    )
    ∷ (
      "collect_policy_snapshot",
      record {
        surface = "policy_snapshot";
        supported = false;
        runtime_check = some "policy_snapshot_contract";
        operational_check = none;
        mode = some "active_policy_list";
        note = some (
            "Policy snapshot is collected from the active-policies API surface, "
            <> "providing evidence of policy lifecycle state in the platform.");
      },
    )
    ∷ []

-- `v is True`
abbrev pub is_true : Value → Bool
is_true (bool b) = b
is_true _ = false

-- A key that a rule may lack.
abbrev optional : String → Option String → Fields → Fields
optional k none r = r
optional k (some s) r = put k (str s) r

-- The support of each step, in the order of the table.
abbrev pub Catalog : Type 0
Catalog = List (String × Fields)

-- `session_step_support`
abbrev pub session_supported : List String → SessionRule → Bool
session_supported available rule = elim rule.runtime_check [
  | none ↦ rule.supported
  | some check ↦ contains available check
]

unfoldable pub session_entry : List String → SessionRule → Fields
unfolding put
session_entry available rule = optional "note" rule.note (
    optional "mode" rule.mode (
      optional "operationalCheck" rule.operational_check (
        optional "runtimeCheck" rule.runtime_check (
          fields (
            ("surface", str rule.surface)
            ∷ ("supported", bool (session_supported available rule))
            ∷ [])))))

session_rows : List String → List (String × SessionRule) → Catalog
session_rows available [] = []
session_rows available ((step, rule) ∷ r) =
    (step, session_entry available rule) ∷ session_rows available r

unfoldable pub session_step_support : List String → Catalog
unfolding session_rows session_entry
session_step_support available = session_rows available session_step_capabilities

-- `catalog.get(step)`
unfoldable pub row_of : String → Catalog → Option Fields
row_of step [] = none
row_of step ((name, r) ∷ rest) = if name == step then some r else row_of step rest

-- `catalog.get(step, {}).get("supported") is True`
abbrev pub supported_row : Option Fields → Bool
supported_row none = false
supported_row (some r) = is_true (get "supported" r)

unfoldable pub is_supported : Catalog → String → Bool
unfolding row_of
is_supported catalog step = supported_row (row_of step catalog)
