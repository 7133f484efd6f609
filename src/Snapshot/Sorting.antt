-- ===== src/Snapshot/Sorting.antt =====
-- The lists of a snapshot and their order.
use liderahenk_test_platform.Base.{String, ◌≡◌, refl, Option, List, map}
use liderahenk_test_platform.Identity.{normalize_agent_id}
use liderahenk_test_platform.Base.Sorted.{IsStrict, sorted_keys-IsStrict}
use liderahenk_test_platform.Json.{ℤ, Value}
use liderahenk_test_platform.Result.{Returns, Returns-bind}
use liderahenk_test_platform.Snapshot.{
  Surfaces, Snapshot, identities, without_server, surface_ids, user_ids, snapshot_of,
  collect_snapshot,
}
use liderahenk_test_platform.ComputerTree.{Nodes, walk, flatten_tree_agent_ids}

pub record IsSortedSnapshot (s : Snapshot) : Type 0 where
  pub ldap : IsStrict s.ldap_ids
  pub registered : IsStrict s.xmpp_registered
  pub connected : IsStrict s.xmpp_connected
  pub c_agents : IsStrict s.c_agent_ids
  pub domain : IsStrict s.domain_agent_ids
  pub tree : IsStrict s.tree_agent_ids

module _ (repr hash_payload : Value → String) where
  surface_ids-IsStrict :
      (identity : Value → Option String) (rows : List Value)
      → IsStrict (surface_ids repr hash_payload identity rows)
  unfolding surface_ids
  surface_ids-IsStrict identity rows = sorted_keys-IsStrict (identities (map identity rows))

  user_ids-IsStrict : (users : List Value) → IsStrict (user_ids repr hash_payload users)
  unfolding user_ids
  user_ids-IsStrict users =
      sorted_keys-IsStrict (without_server (identities (map (normalize_agent_id repr) users)))

  pub tree_ids-IsStrict : (tree : Nodes) → IsStrict (flatten_tree_agent_ids repr tree)
  unfolding flatten_tree_agent_ids
  tree_ids-IsStrict tree = sorted_keys-IsStrict (walk repr tree)

module _ (repr hash_payload : Value → String) (profile : String) (expected : ℤ) (now : String) where
  snapshot_of-IsSortedSnapshot :
      (dashboard : Value) (agents : List Value) (tree : Nodes)
      (entries registered connected rows : List Value) (config : Value)
      → IsSortedSnapshot (
          snapshot_of repr hash_payload profile expected now dashboard agents tree entries
            registered connected rows config)
  unfolding snapshot_of
  snapshot_of-IsSortedSnapshot dashboard agents tree entries registered connected rows config =
      record {
        ldap = surface_ids-IsStrict repr hash_payload _ entries;
        registered = user_ids-IsStrict repr hash_payload registered;
        connected = user_ids-IsStrict repr hash_payload connected;
        c_agents = surface_ids-IsStrict repr hash_payload _ rows;
        domain = surface_ids-IsStrict repr hash_payload _ agents;
        tree = tree_ids-IsStrict repr hash_payload tree;
      }

  -- A collection that succeeds gives strictly sorted lists, whatever the adapters answer.
  pub collect_snapshot-IsSortedSnapshot :
      (s : Surfaces)
      → Returns IsSortedSnapshot (collect_snapshot repr hash_payload profile expected now s)
  unfolding collect_snapshot
  collect_snapshot-IsSortedSnapshot s = search (Returns-bind, snapshot_of-IsSortedSnapshot) depth 12

  snapshot_of-expected_agents :
      (dashboard : Value) (agents : List Value) (tree : Nodes)
      (entries registered connected rows : List Value) (config : Value)
      → (snapshot_of repr hash_payload profile expected now dashboard agents tree entries registered
          connected rows config).expected_agents
        ≡ expected
  unfolding snapshot_of
  snapshot_of-expected_agents dashboard agents tree entries registered connected rows config = refl

  pub collect_snapshot-expected_agents :
      (s : Surfaces)
      → Returns
          (λ t. t.expected_agents ≡ expected)
          (collect_snapshot repr hash_payload profile expected now s)
  unfolding collect_snapshot
  collect_snapshot-expected_agents s = search (Returns-bind, snapshot_of-expected_agents) depth 12
