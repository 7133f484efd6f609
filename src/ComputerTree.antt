-- ===== src/ComputerTree.antt =====
-- The computer tree of the inventory, and the walks over it: `flatten_tree_agent_ids` of
-- platform_runtime/registration.py. A node's two lists of children are the entries of
-- `childEntries` and of `children`; a missing or null list is `nil`.
pub mod Reach
use liderahenk_test_platform.Base.{
  String, Bool, true, false, ◌||◌, Option, none, some, List, [], ◌∷◌, ◌++◌, ◌==◌, if◌then◌else◌,
}
use liderahenk_test_platform.Base.Text.{is_empty}
use liderahenk_test_platform.Base.Sorted.{sorted_keys}
use liderahenk_test_platform.Json.{Value, str, or_else}
use liderahenk_test_platform.Identity.{text_of, normalize_agent_id}

-- The fields of a node that the walks read, null where missing.
pub record NodeFields : Type 0 where
  pub kind : Value
  pub node_type : Value
  pub uid : Value
  pub cn : Value
  pub name : Value
  pub dn : Value

mutual
  pub data Node : Type 0 where
    node : NodeFields → Nodes → Nodes → Node

  pub data Nodes : Type 0 where
    nil : Nodes
    cons : Node → Nodes → Nodes

-- `node.get("childEntries", []) or node.get("children", [])`
abbrev pub children : Nodes → Nodes → Nodes
children nil other = other
children (cons n r) other = cons n r

unfoldable pub is_agent_type : String → Bool
is_agent_type t = t == "AHENK" || t == "WINDOWS_AHENK"

module _ (repr : Value → String) where
  -- what a node itself adds to `found`
  unfoldable pub own_id : NodeFields → List String
  unfolding is_agent_type normalize_agent_id
  own_id f =
      if is_agent_type (text_of repr (or_else (or_else f.kind f.node_type) (str "")))
      then elim (normalize_agent_id repr (or_else f.uid (or_else f.cn (or_else f.name f.dn)))) [
        | none ↦ []
        | some id ↦ if is_empty id then [] else id ∷ []
      ]
      else []

  unfoldable mutual
    unfolding own_id

    -- `walk`: a node before its children, depth first
    pub walk : Nodes → List String
    walk nil = []
    walk (cons n r) = walk_node n ++ walk r

    pub walk_node : Node → List String
    walk_node (node f nil others) = own_id f ++ walk others
    walk_node (node f (cons n r) others) = own_id f ++ walk (cons n r)

  unfoldable pub flatten_tree_agent_ids : Nodes → List String
  unfolding walk sorted_keys
  flatten_tree_agent_ids nodes = sorted_keys (walk nodes)
