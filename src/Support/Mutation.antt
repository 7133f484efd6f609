-- ===== src/Support/Mutation.antt =====
-- `mutation_step_support` of platform_runtime/readiness/mutation_support.py.
use liderahenk_test_platform.Base.{
  String, ◌<>◌, Bool, false, not, ◌&&◌, Option, none, some, List, [], ◌∷◌, if◌then◌else◌,
}
use liderahenk_test_platform.Base.Text.{strip, is_empty}
use liderahenk_test_platform.Json.{
  Value, bool, str, arr, obj, nil, cons, Fields, end, fields, get, value_eq,
}
use liderahenk_test_platform.Access.{as_mapping, get_or}
use liderahenk_test_platform.Result.{Result, ok, ◌>>=◌}
use liderahenk_test_platform.Support.{
  ConditionalMode, MutationRule, plain, creation, assignment, mutation_step_capabilities, is_true,
  Catalog,
}

abbrev or_blank : Option String → String
or_blank none = ""
or_blank (some s) = s

abbrev status_text : Bool → Bool → String
status_text verified configured =
    if verified then "runtime-verified" else if configured then "configured" else "disabled"

-- Evidence of a step says that it was verified at run time.
abbrev pub is_verified : Value → Bool
is_verified (obj r) = is_true (get "runtimeVerified" r)
is_verified _ = false

-- It says so for a mode.
abbrev pub is_verified_in : String → Value → Bool
is_verified_in mode (obj r) =
    is_true (get "runtimeVerified" r) && value_eq (get "mode" r) (str mode)
is_verified_in mode _ = false

-- `mutation_evidence.get("verifiedSteps", {})`, or nothing where the evidence is no object
abbrev pub verified_steps : Value → Value
verified_steps (obj r) = get_or "verifiedSteps" (obj end) r
verified_steps _ = obj end

module _ (has_method : String → Bool) (environ : String → Option String) where
  -- `bool(os.environ.get(name, "").strip())`
  unfoldable pub is_configured : String → Bool
  unfolding strip
  is_configured name = not (is_empty (strip (or_blank (environ name))))

  abbrev has_named : String → Bool
  has_named name = not (is_empty name) && has_method name

  creation_note : String → Bool → Bool → List (String × Value)
  creation_note env verified configured =
      if verified
      then ("mode", str "ui-first-postcondition")
        ∷ (
          "note",
          str (
              "Official directory user create flow is runtime-verified by the active "
              <> "ui-user-policy-roundtrip acceptance lane."),
        )
        ∷ []
      else if configured
      then ("mode", str "configured-not-verified")
        ∷ (
          "note",
          str (
              "Official directory user create flow is configured through "
              <> (env <> ", but it is not runtime-verified yet.")),
        )
        ∷ []
      else (
        "note",
        str (
            "Official directory user create endpoint is not configured. "
            <> ("Set " <> (env <> " to expose create_user_via_ui."))),
      )
        ∷ []

  assignment_note : String → String → Bool → Bool → String
  assignment_note note env verified configured =
      if verified
      then note
        <> (" Existing-group membership mutation is runtime-verified by the "
            <> "active ui-user-policy-roundtrip acceptance lane.")
      else if configured
      then note
        <> (" Existing-group membership mutation is configured via "
            <> (env <> ", but it is not runtime-verified yet."))
      else if not (is_empty env)
      then note
        <> (" Set "
            <> (env
                <> (" to enable existing-group "
                    <> "membership mutation after the group already exists.")))
      else note

  abbrev creation_fields : String → String → String → String → Bool → Bool → Fields
  creation_fields method surface env capability verified configured = fields (
      ("surface", str surface)
      ∷ ("supported", bool verified)
      ∷ ("adapterMethod", str method)
      ∷ ("capabilityEnv", str env)
      ∷ ("capabilityMethod", str capability)
      ∷ ("configured", bool configured)
      ∷ ("runtimeVerified", bool verified)
      ∷ ("status", str (status_text verified configured))
      ∷ creation_note env verified configured)

  abbrev mode_fields : ConditionalMode → Bool → Bool → Fields
  mode_fields m verified configured = fields (
      ("name", str m.name)
      ∷ ("enabled", bool verified)
      ∷ ("configured", bool configured)
      ∷ ("runtimeVerified", bool verified)
      ∷ ("status", str (status_text verified configured))
      ∷ ("adapterMethod", str m.adapter_method)
      ∷ ("capabilityEnv", str m.capability_env)
      ∷ ("capabilityMethod", str m.capability_method)
      ∷ [])

  -- The entry of one step, from the evidence about it.
  unfoldable pub mutation_entry : Bool → Value → MutationRule → Fields
  unfolding creation_note assignment_note is_configured value_eq
  mutation_entry allow evidence (plain method surface) = fields (
      ("surface", str surface)
      ∷ ("supported", bool (has_named method))
      ∷ ("adapterMethod", str method)
      ∷ [])
  mutation_entry allow evidence (creation method surface env capability) =
      creation_fields method surface env capability (allow && is_verified evidence)
        (has_named method && (has_named capability && is_configured env))
  mutation_entry allow evidence (assignment method surface mode note m) =
      (let verified = allow && is_verified_in m.name evidence in
        let configured = not (is_empty m.capability_env) && is_configured m.capability_env in
        fields (
          ("surface", str surface)
          ∷ ("supported", bool (has_named method))
          ∷ ("adapterMethod", str method)
          ∷ ("mode", str mode)
          ∷ ("note", str (assignment_note note m.capability_env verified configured))
          ∷ ("conditionalModes", arr (cons (obj (mode_fields m verified configured)) nil))
          ∷ []))

  unfoldable pub mutation_rows : Bool → Fields → List (String × MutationRule) → Catalog
  mutation_rows allow verified [] = []
  mutation_rows allow verified ((step, rule) ∷ r) =
      (step, mutation_entry allow (get_or step (obj end) verified) rule)
      ∷ mutation_rows allow verified r

  -- The evidence is loaded only when run-time verification is allowed.
  unfoldable pub mutation_step_support : Bool → Value → Result Catalog
  unfolding as_mapping mutation_rows mutation_entry
  mutation_step_support allow evidence = do
    verified ← as_mapping (verified_steps (if allow then evidence else obj end))
    ok (mutation_rows allow verified mutation_step_capabilities)
