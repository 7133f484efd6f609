-- ===== src/Tests/Parts.antt =====
-- The identities, the tree, the gate, the scenarios, the checks and the database at concrete inputs.
use liderahenk_test_platform.Base.{
  ℕ, zero, suc, ◌+◌, ◌*◌, String, ◌≡◌, refl, ◌↔◌, true, Option, none, some, List, [], ◌∷◌, map, all,
  arith, contains, ◌==◌, if◌then◌else◌,
}
use liderahenk_test_platform.Base.Text.{strip, lstrip, rstrip, is_space, ends_with}
use liderahenk_test_platform.Base.Gives.{Gives}
use liderahenk_test_platform.Json.{null, str, obj, Fields, fields, texts}
use liderahenk_test_platform.Result.{Result, ok, err}
use liderahenk_test_platform.Identity.{normalize_agent_id}
use liderahenk_test_platform.Identity.Forms.{dn, normalize_agent_id-spell}
use liderahenk_test_platform.ComputerTree.{NodeFields, own_id, flatten_tree_agent_ids}
use liderahenk_test_platform.ComputerTree.Reach.{Reaches, flatten_tree_agent_ids-Reaches}
use liderahenk_test_platform.Gate.{Network, response, json, wait_for_liderapi_gate}
use liderahenk_test_platform.Gate.Waits.{IsClock, IsOutcome, wait_for_liderapi_gate_ends}
use liderahenk_test_platform.Checks.{Check, build_check, passes}
use liderahenk_test_platform.Scenario.{Entry, load_scenario_pack, collect_scenario_checks}
use liderahenk_test_platform.Scenario.Outcome.{entry_passes, collect_scenario_checks_lem}
use liderahenk_test_platform.Scenario.Active.{split_commas, explicit_names}
use liderahenk_test_platform.Gate.Discovery.{Networks, choose, discover_ip}
use liderahenk_test_platform.RuntimeDb.{with_connection}
use liderahenk_test_platform.RuntimeDb.Connect.{with_connection_masks}
use liderahenk_test_platform.Tests.Data.{plain, tree}

-- An entry of the directory.
normalize_agent_id-spell_example :
    normalize_agent_id plain (str "cn=ahenk-001,ou=Agents,dc=liderahenk,dc=org") ≡ some "ahenk-001"
unfolding is_space ends_with
normalize_agent_id-spell_example =
    normalize_agent_id-spell plain (dn "cn" "ou=Agents,dc=liderahenk,dc=org") "ahenk-001"
      (record { is_plain = record { named = refl; plain = refl }; no_host = refl })
      (record { named = refl; plain = refl })

flatten_tree_agent_ids-Reaches_example :
    (contains (flatten_tree_agent_ids plain tree) "ahenk-001" ≡ true)
    ↔ ((f : NodeFields) × Reaches f tree × (contains (own_id plain f) "ahenk-001" ≡ true))
flatten_tree_agent_ids-Reaches_example = flatten_tree_agent_ids-Reaches plain "ahenk-001" tree

-- An API that signs in and answers the probe, and takes a tick for it.
abbrev api : Network
api = record {
  World = ℕ;
  second = 1;
  monotonic = λ w. w;
  sleep = λ d w. w + d;
  post = λ url payload token timeout w.
      (response 200 (json (obj (fields (("token", str "t") ∷ [])))), w + 1);
}

api-IsClock : IsClock api
api-IsClock = record {
  second_pos = omega arith;
  sleep_lasts = λ d w. omega arith;
  post_lasts = λ url payload token timeout w. omega arith;
}

wait_for_liderapi_gate_ends_example : Gives (IsOutcome api 2 (7 + 180 * 1)) (
    wait_for_liderapi_gate api "http://liderapi:8080" "lider-admin" "secret" 5 182 2 180
      "http://liderapi:8080" 7)
wait_for_liderapi_gate_ends_example =
    wait_for_liderapi_gate_ends api "http://liderapi:8080" "lider-admin" "secret"
      "http://liderapi:8080" 5 2 180 7 api-IsClock (omega arith) (omega arith)

-- One scenario whose second runtime check has no runner.
abbrev runner : String → Option Check
runner name =
    if name == "ldap"
    then some (build_check "ldap" "directory" "LDAP answers" true null null null)
    else none

abbrev pack_file : String → Option Fields
pack_file name =
    if name == "session-login"
    then some (
        fields (
          ("name", str "session-login")
          ∷ ("requires", obj (fields (("topology_profile", str "dev-fast") ∷ [])))
          ∷ ("steps", texts ("simulate_login" ∷ []))
          ∷ ("runtime_checks", texts ("ldap" ∷ "tree" ∷ []))
          ∷ []))
    else none

abbrev load : String → Result Fields
load =
    load_scenario_pack plain ("name" ∷ "requires" ∷ "steps" ∷ []) ("topology_profile" ∷ [])
      pack_file

collect_scenario_checks_lem_example :
    (map
        (λ (e : String × Entry). e.0)
        (collect_scenario_checks runner plain load "dev-fast" ("session-login" ∷ "gone" ∷ [])).1
      ≡ "session-login" ∷ "gone" ∷ [])
    × (all
          (λ (e : String × Entry). entry_passes e.1)
          (collect_scenario_checks runner plain load "dev-fast" ("session-login" ∷ "gone" ∷ [])).1
        ≡ all passes
            (collect_scenario_checks runner plain load "dev-fast"
              ("session-login" ∷ "gone" ∷ [])).0)
collect_scenario_checks_lem_example =
    collect_scenario_checks_lem runner plain load "dev-fast" ("session-login" ∷ "gone" ∷ [])

-- Host 0 refuses, and the others answer.
abbrev dial : ℕ → Result ℕ
dial zero = err "refused"
dial (suc n) = ok n

abbrev no_table : ℕ → Result ℕ
no_table c = err "no such table"

abbrev closes : ℕ → Result (Unit {0})
closes c = ok tt

with_connection_masks_example :
    with_connection dial closes no_table (0 ∷ 7 ∷ 8 ∷ [])
    ≡ err "generator didn't stop after throw()"
with_connection_masks_example =
    with_connection_masks dial closes no_table (0 ∷ 7 ∷ 8 ∷ []) 6 (8 ∷ []) "no such table" refl refl
      refl

explicit_names_example : explicit_names (some "ldap, tree,ldap,") ≡ "ldap" ∷ "tree" ∷ "ldap" ∷ []
unfolding explicit_names split_commas strip lstrip rstrip is_space
explicit_names_example = refl

-- A container in two networks, after one without an address.
abbrev containers : List Networks
containers =
    (("bridge", " ") ∷ [])
    ∷ (("default", "10.0.0.2") ∷ ("test_liderahenk_agents", "10.1.0.2") ∷ [])
    ∷ []

discover_ip_example : discover_ip "_liderahenk_agents" containers ≡ some "10.1.0.2"
unfolding discover_ip choose strip lstrip rstrip is_space ends_with
discover_ip_example = refl
