-- ===== src/Runner.antt =====
-- The scenario runner, orchestrator/main.py: the steps of a scenario, each of which calls the
-- platform, and the assertions. The adapters are a parameter, each call of which answers or raises;
-- so are `int` at a text or a value, and the comparison of the connection rate, which is a fraction.
pub mod Actions
pub mod Run
pub mod Progress
pub mod Passing
pub mod Follows
pub mod Order
use liderahenk_test_platform.Base.{
  ℕ, zero, suc, ◌+◌, ◌-◌, String, ◌<>◌, Bool, true, false, not, ◌&&◌, ◌||◌, Option, none, some,
  List, [], ◌∷◌, ◌==◌, all, any, length, eqb, leb, if◌then◌else◌,
}
use liderahenk_test_platform.Base.Text.{has_text, replace, decimal, chars, is_empty}
use liderahenk_test_platform.Json.{
  ℤ, pos, negsuc, Value, null, bool, num, str, arr, obj, nil, cons, Items, from_items, Fields, end,
  is_end, field, fields, has, get, truthy, or_else, is_null, int_eq, int_ltb, value_eq,
}
use liderahenk_test_platform.Access.{as_mapping, get_or, at_key}
use liderahenk_test_platform.Result.{Result, ok, err, ◌>>=◌ as bind, on_result}
use liderahenk_test_platform.Identity.{text_of, int_text}
use liderahenk_test_platform.ComputerTree.{Nodes, flatten_tree_agent_ids}
use liderahenk_test_platform.PolicyRoundtrip.{Entries, find_in, is_agent}

-- The adapters. The computer tree is asked for in two forms: as the nodes of the walk, and as the
-- entries that are searched.
pub record Adapters : Type 1 where
  pub World : Type 0
  pub environ : String → Option String
  pub health_check : World → Result Bool × World
  pub is_authenticated : World → Result Bool × World
  pub ldap_agent_count : World → Result ℤ × World
  pub registered_count : World → Result ℤ × World
  pub connected_count : World → Result ℤ × World
  pub c_agent_count : World → Result ℤ × World
  pub agent_list : World → Result (List Value) × World
  pub dashboard_info : World → Result Value × World
  pub computer_tree : World → Result Nodes × World
  pub computer_entries : World → Result Entries × World
  pub agent_exists : String → World → Result Bool × World
  pub is_user_registered : String → World → Result Bool × World
  pub send_task : Fields → Value → Value → World → Result ℤ × World
  pub create_computer_group : String → Fields → Value → World → Result Fields × World
  pub create_script_profile : String → Value → Value → ℤ → Value → World → Result Fields × World
  pub create_policy : String → Value → Fields → Bool → World → Result Fields × World
  pub execute_policy : Value → Value → World → Result ℤ × World
  pub sleep_at_most_five : Value → World → Result (Unit {0}) × World

-- `self.state`, which starts empty.
pub record RunnerState : Type 0 where
  pub last_group : Option Fields
  pub last_profile : Option Fields
  pub last_policy : Option Fields

abbrev pub fresh : RunnerState
fresh = record { last_group = none; last_profile = none; last_policy = none }

-- The result of a step: `extra` holds the keys that only some actions give.
pub record StepResult : Type 0 where
  pub success : Bool
  pub detail : Value
  pub error : Option String
  pub extra : Fields

abbrev pub outcome : Bool → Value → Fields → StepResult
outcome success detail extra = record {
  success = success;
  detail = detail;
  error = none;
  extra = extra;
}

-- `except Exception as e`
abbrev pub raised : String → StepResult
raised e = record { success = false; detail = str e; error = some e; extra = end }

-- A truthy entry of the state.
abbrev pub usable : Option Fields → Option Fields
usable none = none
usable (some r) = if is_end r then none else some r

-- A key that may be missing.
abbrev given : String → Fields → Option Value
given k r = if has k r then some (get k r) else none

abbrev pad3 : ℤ → String
pad3 (pos n) =
    let s = decimal n in
    if leb 3 (chars s) then s else if eqb (chars s) 2 then "0" <> s else "00" <> s
pad3 (negsuc n) = let s = decimal (n + 1) in if leb 2 (chars s) then "-" <> s else "-0" <> s

-- The end of a call: its result, the state of the runner and the world.
pub record Ran (W B : Type 0) : Type 0 where
  pub result : Result B
  pub state : RunnerState
  pub world : W

pub data Action : Type 0 where
  check_api_health : Action
  check_jwt_auth : Action
  check_ldap_agent_count : Action
  check_xmpp_agent_count : Action
  check_c_agent_count : Action
  check_domain_agent_count : Action
  check_dashboard_total : Action
  check_computer_tree_count : Action
  check_agent_exists : Action
  check_connection_rate : Action
  send_task : Action
  create_computer_group : Action
  create_script_profile : Action
  create_policy : Action
  execute_policy : Action
  wait_for_results : Action
  prometheus_snapshot : Action
  unknown : Value → Action

abbrev action_names : List (String × Action)
action_names =
    ("check_api_health", check_api_health)
    ∷ ("check_jwt_auth", check_jwt_auth)
    ∷ ("check_ldap_agent_count", check_ldap_agent_count)
    ∷ ("check_xmpp_agent_count", check_xmpp_agent_count)
    ∷ ("check_c_agent_count", check_c_agent_count)
    ∷ ("check_domain_agent_count", check_domain_agent_count)
    ∷ ("check_dashboard_total", check_dashboard_total)
    ∷ ("check_computer_tree_count", check_computer_tree_count)
    ∷ ("check_agent_exists", check_agent_exists)
    ∷ ("check_connection_rate", check_connection_rate)
    ∷ ("send_task", send_task)
    ∷ ("create_computer_group", create_computer_group)
    ∷ ("create_script_profile", create_script_profile)
    ∷ ("create_policy", create_policy)
    ∷ ("execute_policy", execute_policy)
    ∷ ("wait_for_results", wait_for_results)
    ∷ ("prometheus_snapshot", prometheus_snapshot)
    ∷ []

action_in : List (String × Action) → String → Action
action_in [] name = unknown (str name)
action_in ((n, a) ∷ r) name = let rest = action_in r name in if name == n then a else rest

-- The chain of tests on `step["action"]`.
unfoldable pub action_of : Value → Action
unfolding action_in
action_of (str name) = action_in action_names name
action_of v = unknown v

module _ (repr : Value → String) (ahenk_count : ℤ) where
  -- `_resolve_var`
  unfoldable pub resolve_var : Value → String
  unfolding replace has_text decimal
  resolve_var v =
      let s = text_of repr v in
      let s' =
        if has_text "${AHENK_COUNT}" s
        then replace "${AHENK_COUNT}" (int_text ahenk_count) s
        else s in
      if has_text "${LAST_AGENT_ID}" s'
      then replace "${LAST_AGENT_ID}" ("ahenk-" <> pad3 ahenk_count) s'
      else s'
