-- ===== src/Snapshot.antt =====
-- `RegistrationCollector.collect_snapshot` of platform_runtime/registration.py. What the adapters
-- answer is a parameter: each call returns its payload or raises.
pub mod Sorting
pub mod Identities
pub mod Collected
use liderahenk_test_platform.Base.{
  String, Bool, true, false, Option, none, some, List, [], ◌∷◌, map, ◌==◌, if◌then◌else◌,
}
use liderahenk_test_platform.Base.Text.{is_empty}
use liderahenk_test_platform.Base.Sorted.{sorted_keys}
use liderahenk_test_platform.Json.{ℤ, Value, null, str, lookup}
use liderahenk_test_platform.Result.{Result, ok, err, ◌>>=◌}
use liderahenk_test_platform.Identity.{
  normalize_agent_id, identity_from_domain_agent, identity_from_c_agent, identity_from_ldap_entry,
}
use liderahenk_test_platform.ComputerTree.{Nodes, flatten_tree_agent_ids}

-- What the calls of one collection answer, in the order in which they are made. The dashboard is
-- read with `dict.get`; an answer of `None` counts as an empty one.
pub record Surfaces : Type 0 where
  pub dashboard_info : Result Value
  pub agent_list : Result (List Value)
  pub computer_tree : Result Nodes
  pub ldap_entries : Result (List Value)
  pub registered_users : Result (List Value)
  pub connected_users : Result (List Value)
  pub c_agents : Result (List Value)
  pub config_json : Result Value

pub record Dashboard : Type 0 where
  pub total : Value
  pub online : Value

pub record Snapshot : Type 0 where
  pub runtime_profile : String
  pub expected_agents : ℤ
  pub captured_at : String
  pub ldap_ids : List String
  pub xmpp_registered : List String
  pub xmpp_connected : List String
  pub c_agent_ids : List String
  pub domain_agent_ids : List String
  pub tree_agent_ids : List String
  pub dashboard : Dashboard
  -- the hash of the configuration, null in an empty snapshot
  pub config_fingerprint : Value

-- `[n for n in xs if n]`: a missing or empty identity is skipped
unfoldable pub identities : List (Option String) → List String
identities [] = []
identities (none ∷ r) = identities r
identities (some id ∷ r) = let rest = identities r in if is_empty id then rest else id ∷ rest

-- The server's own account is no agent.
unfoldable pub without_server : List String → List String
without_server [] = []
without_server (id ∷ r) =
    let rest = without_server r in if id == "lider_sunucu" then rest else id ∷ rest

-- Strings print as data here, and so does the hash of the configuration.
module _ (repr : Value → String) (hash_payload : Value → String) where
  surface_ids : (Value → Option String) → List Value → List String
  surface_ids identity rows = sorted_keys (identities (map identity rows))

  user_ids : List Value → List String
  user_ids users = sorted_keys (without_server (identities (map (normalize_agent_id repr) users)))

  -- the `return`, from the payloads
  snapshot_of :
      String
      → ℤ
      → String
      → Value
      → List Value
      → Nodes
      → List Value
      → List Value
      → List Value
      → List Value
      → Value
      → Snapshot
  snapshot_of profile expected now dashboard agents tree entries registered connected rows config =
      record {
        runtime_profile = profile;
        expected_agents = expected;
        captured_at = now;
        ldap_ids = surface_ids (identity_from_ldap_entry repr) entries;
        xmpp_registered = user_ids registered;
        xmpp_connected = user_ids connected;
        c_agent_ids = surface_ids (identity_from_c_agent repr) rows;
        domain_agent_ids = surface_ids (identity_from_domain_agent repr) agents;
        tree_agent_ids = flatten_tree_agent_ids repr tree;
        dashboard = record {
          total = lookup "totalComputerNumber" dashboard;
          online = lookup "totalOnlineComputerNumber" dashboard;
        };
        config_fingerprint = str (hash_payload config);
      }

  unfoldable pub collect_snapshot : String → ℤ → String → Surfaces → Result Snapshot
  unfolding snapshot_of surface_ids user_ids identities without_server sorted_keys
      flatten_tree_agent_ids identity_from_ldap_entry identity_from_c_agent
      identity_from_domain_agent normalize_agent_id
  collect_snapshot profile expected now s = do
    dashboard ← s.dashboard_info
    agents ← s.agent_list
    tree ← s.computer_tree
    entries ← s.ldap_entries
    registered ← s.registered_users
    connected ← s.connected_users
    rows ← s.c_agents
    config ← s.config_json
    ok (
        snapshot_of profile expected now dashboard agents tree entries registered connected rows
          config)
