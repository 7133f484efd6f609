-- ===== src/Support/Verified.antt =====
-- Which mutation steps the catalog supports.
use liderahenk_test_platform.Base.{String, ◌≡◌, refl, Bool, ◌&&◌, Option, if◌then◌else◌}
use liderahenk_test_platform.Json.{Value, obj, Fields, end}
use liderahenk_test_platform.Access.{as_mapping, get_or}
use liderahenk_test_platform.Result.{ok}
use liderahenk_test_platform.Support.{Catalog, is_supported, mutation_step_capabilities}
use liderahenk_test_platform.Support.Mutation.{
  is_verified, verified_steps, mutation_entry, mutation_rows, mutation_step_support,
}

module _ (has_method : String → Bool) (environ : String → Option String) where
  rows_supported :
      (allow : Bool) (v : Fields) (catalog : Catalog)
      → mutation_rows has_method environ allow v mutation_step_capabilities ≡ catalog
      → (is_supported catalog "create_user_via_ui"
          ≡ (allow && is_verified (get_or "create_user_via_ui" (obj end) v)))
        × (is_supported catalog "create_group_via_ui" ≡ has_method "create_user_group")
        × (is_supported catalog "assign_user_to_group_via_ui" ≡ has_method "create_user_group")
        × (is_supported catalog "create_policy_via_ui" ≡ has_method "create_policy")
        × (is_supported catalog "assign_policy_to_group_via_ui" ≡ has_method "execute_policy")
  unfolding mutation_rows mutation_entry is_supported
  rows_supported allow v catalog h = rw (← h) (refl, refl, refl, refl, refl)

  -- A catalog supports the creation of a user exactly when run-time verification is allowed and the
  -- evidence says that this step was verified, whatever is configured; it supports each other step
  -- exactly when the adapter has its method.
  pub mutation_step_support_lem :
      (allow : Bool) (evidence : Value) (v : Fields) (catalog : Catalog)
      → as_mapping (verified_steps (if allow then evidence else obj end)) ≡ ok v
      → mutation_step_support has_method environ allow evidence ≡ ok catalog
      → (is_supported catalog "create_user_via_ui"
          ≡ (allow && is_verified (get_or "create_user_via_ui" (obj end) v)))
        × (is_supported catalog "create_group_via_ui" ≡ has_method "create_user_group")
        × (is_supported catalog "assign_user_to_group_via_ui" ≡ has_method "create_user_group")
        × (is_supported catalog "create_policy_via_ui" ≡ has_method "create_policy")
        × (is_supported catalog "assign_policy_to_group_via_ui" ≡ has_method "execute_policy")
  unfolding mutation_step_support
  mutation_step_support_lem allow evidence v catalog p h =
      rows_supported allow v catalog (same_catalog (rw p at h))
    where
      same_catalog : {x y : Catalog} → ok x ≡ ok y → x ≡ y
      same_catalog q = cc
