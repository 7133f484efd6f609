-- ===== src/Topology.antt =====
-- The topology profiles, platform/topology/profile_loader.py. The YAML files and the environment
-- are arguments, the seeds of a profile are its defaults as `int` and `str` give them, and `int_of`
-- is `int` on a text. The lists of roles and archetypes are copied and left out.
pub mod Targets
pub mod Overrides
use liderahenk_test_platform.Base.{
  ℕ, String, ◌<>◌, Bool, true, false, not, ◌&&◌, ◌||◌, Option, none, some, List, [], ◌∷◌, ◌==◌, eqb,
  if◌then◌else◌,
}
use liderahenk_test_platform.Base.Text.{strip, is_empty}
use liderahenk_test_platform.Json.{ℤ, Value, str, num, int_ltb}
use liderahenk_test_platform.Identity.{text_of, int_text}
use liderahenk_test_platform.Result.{Result, ok, err, ◌>>=◌}

-- The entries that an environment variable may override.
pub data Target : Type 0 where
  operators directory_users user_groups endpoint_groups policy_pack session_pack bind_mode : Target

abbrev index : Target → ℕ
index operators = 0
index directory_users = 1
index user_groups = 2
index endpoint_groups = 3
index policy_pack = 4
index session_pack = 5
index bind_mode = 6

-- The `if target == …` chain; another target is left alone.
unfoldable pub target_of : String → Option Target
target_of t =
    if t == "operators.count"
    then some operators
    else if t == "directory_users.count"
    then some directory_users
    else if t == "user_groups.count"
    then some user_groups
    else if t == "endpoint_groups.count"
    then some endpoint_groups
    else if t == "policy_pack"
    then some policy_pack
    else if t == "session_pack"
    then some session_pack
    else if t == "ldap_bind_mode"
    then some bind_mode
    else none

-- A rule of `override_env`.
pub record Rule : Type 0 where
  pub env_name : String
  pub target : String
  pub is_int : Bool
  pub minimum : ℤ

pub record ProfileFile : Type 0 where
  pub name : String
  pub runtime_profile : String
  pub seeds : Target → Value

pub record Topology : Type 0 where
  pub name : String
  pub runtime_profile : String
  pub managed_endpoint_count : ℤ
  pub values : Target → Value

abbrev pub same_target : Option Target → Target → Bool
same_target none x = false
same_target (some y) x = eqb (index x) (index y)

abbrev pub set_value : Option Target → Value → (Target → Value) → Target → Value
set_value o v values x = if same_target o x then v else values x

module _ (repr : Value → String) (int_of : String → Option ℤ) where
  -- `_int_override`
  unfoldable pub int_override : String → String → ℤ → Result Value
  int_override name value minimum = elim (int_of value) [
    | none ↦ err (name <> (" must be an integer, got " <> repr (str value)))
    | some n ↦
        if int_ltb n minimum
        then err (name <> (" must be >= " <> (int_text minimum <> (", got " <> int_text n))))
        else ok (num n)
  ]

  unfoldable pub override_value : Rule → String → Result Value
  unfolding int_override strip
  override_value rule raw =
      if rule.is_int
      then int_override rule.env_name raw rule.minimum
      else if is_empty (strip raw)
      then err (rule.env_name <> " must not be blank")
      else ok (str (strip raw))

  module _ (env : String → Option String) where
    override_by : Rule → Option String → (Target → Value) → Result (Target → Value)
    unfolding override_value target_of
    override_by rule none values = ok values
    override_by rule (some raw) values =
        override_value rule raw >>= λ v. ok (set_value (target_of rule.target) v values)

    -- `for env_name, rule in contract["override_env"].items()`
    unfoldable pub apply_rules : List Rule → (Target → Value) → Result (Target → Value)
    unfolding override_by
    apply_rules [] values = ok values
    apply_rules (rule ∷ r) values =
        override_by rule (env rule.env_name) values >>= λ next. apply_rules r next

    -- `env.get("TOPOLOGY_PROFILE") or default`
    abbrev selected : Option String → Result String → Result String
    selected none default = default
    selected (some name) default = if is_empty name then default else ok name

    targeted : String → String → Option ProfileFile → Result ProfileFile
    targeted runtime_profile name none = err ("topology profile not found: " <> name)
    targeted runtime_profile name (some file) =
        if file.runtime_profile == runtime_profile
        then ok file
        else err (
            "topology profile "
            <> (repr (str name)
                <> (" targets runtime "
                    <> (repr (str file.runtime_profile)
                        <> (", expected " <> repr (str runtime_profile))))))

    -- `resolve_topology_profile`; `defaults` is `contract["selection"]["runtime_defaults"]`
    unfoldable pub resolve_topology_profile :
        (String → Result String)
        → (String → Option ProfileFile)
        → List Rule
        → String
        → ℤ
        → Result Topology
    unfolding apply_rules targeted
    resolve_topology_profile defaults read rules runtime_profile expected = do
      name ← selected (env "TOPOLOGY_PROFILE") (defaults runtime_profile)
      file ← targeted runtime_profile name (read name)
      values ← apply_rules rules file.seeds
      ok (record {
        name = file.name;
        runtime_profile = runtime_profile;
        managed_endpoint_count = expected;
        values = values;
      })

  -- `resolved["env"]`
  unfoldable pub exported : Topology → List (String × String)
  exported t =
      ("TOPOLOGY_PROFILE", t.name)
      ∷ ("OPERATOR_COUNT", text_of repr (t.values operators))
      ∷ ("DIRECTORY_USER_COUNT", text_of repr (t.values directory_users))
      ∷ ("USER_GROUP_COUNT", text_of repr (t.values user_groups))
      ∷ ("ENDPOINT_GROUP_COUNT", text_of repr (t.values endpoint_groups))
      ∷ ("POLICY_PACK", text_of repr (t.values policy_pack))
      ∷ ("SESSION_PACK", text_of repr (t.values session_pack))
      ∷ ("LIDER_LDAP_BIND_MODE", text_of repr (t.values bind_mode))
      ∷ []
