-- ===== src/Membership.antt =====
-- The snapshot of the user groups: `_iter_tree_children`, `_node_membership_count`,
-- `_summarize_user_group_tree`, `_collect_membership_snapshot` and its check in
-- platform_runtime/readiness/__init__.py.
pub mod Visits
pub mod Fuel
pub mod Totals
use liderahenk_test_platform.Base.{
  ℕ, zero, suc, ◌+◌, max, String, Bool, not, ◌&&◌, List, [], ◌∷◌, ◌++◌, length, select, is_nil, ltb,
  if◌then◌else◌,
}
use liderahenk_test_platform.Base.Text.{is_empty}
use liderahenk_test_platform.Base.Sorted.{sorted_keys}
use liderahenk_test_platform.Result.{Result, on_result}
use liderahenk_test_platform.Checks.{Check, build_check}
use liderahenk_test_platform.Json.{
  ℤ, pos, negsuc, Value, null, bool, num, str, arr, obj, Items, nil, cons, from_items, Fields, end,
  field, get, lookup, as_int, truthy, texts, nat, value_eq,
}
use mathlib.Core.Option.{none, some}

-- `[item for item in items if isinstance(item, dict)]`
unfoldable pub dicts : Items → List Fields
dicts nil = []
dicts (cons (obj r) vs) = r ∷ dicts vs
dicts (cons null vs) = dicts vs
dicts (cons (bool _) vs) = dicts vs
dicts (cons (num _) vs) = dicts vs
dicts (cons (str _) vs) = dicts vs
dicts (cons (arr _) vs) = dicts vs

unfoldable pub entries_of : Value → List Fields
unfolding dicts
entries_of (arr vs) = dicts vs
entries_of _ = []

unfoldable pub iter_tree_children : Fields → List Fields
unfolding entries_of
iter_tree_children n = entries_of (get "childEntries" n) ++ entries_of (get "children" n)

-- `max(n, 0)`
abbrev pub at_least_zero : ℤ → ℕ
at_least_zero (pos n) = n
at_least_zero (negsuc n) = 0

-- The largest list, and the keys with a list.
unfoldable pub list_counts : List String → Fields → ℕ × List String
list_counts [] n = (0, [])
list_counts (k ∷ keys) n =
    let rest = list_counts keys n in
    elim (get k n) [ arr vs ↦ (max (length (from_items vs)) (rest.0), k ∷ rest.1) | _ ↦ rest ]

unfoldable pub node_membership_count : Fields → ℕ × List String
unfolding list_counts
node_membership_count n = elim (as_int (get "memberCount" n)) [
  | some c ↦ (at_least_zero c, "memberCount" ∷ [])
  | none ↦
      list_counts ("checkedEntries" ∷ "memberEntries" ∷ "members" ∷ "memberDns" ∷ "memberUids" ∷ [])
        n
]

-- The variables of the loop: the set of keys is a list here, and sorted in the summary.
pub record Tally : Type 0 where
  pub nodes : ℕ
  pub leaves : ℕ
  pub bearing : ℕ
  pub declared : ℕ
  pub sources : List String
  pub samples : List String

-- A name is kept while there are fewer than five.
unfoldable pub sampled : Value → List String → List String
sampled (str s) found =
    if not (is_empty s) && ltb (length found) 5 then found ++ (s ∷ []) else found
sampled _ found = found

-- One pass of the loop, but for the queue.
unfoldable pub visit_node : Fields → Tally → Tally
unfolding iter_tree_children node_membership_count sampled
visit_node n t =
    let count = node_membership_count n in
    let has_members = ltb 0 (count.0) in
    record {
      nodes = t.nodes + 1;
      leaves = if is_nil (iter_tree_children n) then t.leaves + 1 else t.leaves;
      bearing = if has_members then t.bearing + 1 else t.bearing;
      declared = if has_members then t.declared + count.0 else t.declared;
      sources = if has_members then t.sources ++ count.1 else t.sources;
      samples = sampled (get "distinguishedName" n) t.samples;
    }

-- `while queue`, on fuel.
unfoldable pub visit_all : ℕ → List Fields → Tally → Tally
unfolding visit_node iter_tree_children
visit_all zero queue t = t
visit_all (suc fuel) [] t = t
visit_all (suc fuel) (n ∷ queue) t = visit_all fuel (queue ++ iter_tree_children n) (visit_node n t)

-- The number of objects inside of data.
unfoldable mutual
  pub objects : Value → ℕ
  objects (obj r) = suc (objects_below r)
  objects (arr vs) = objects_among vs
  objects null = 0
  objects (bool _) = 0
  objects (num _) = 0
  objects (str _) = 0

  pub objects_below : Fields → ℕ
  objects_below end = 0
  objects_below (field _ v r) = objects v + objects_below r

  pub objects_among : Items → ℕ
  objects_among nil = 0
  objects_among (cons v vs) = objects v + objects_among vs

-- Each pass takes an object off the queue, and puts objects inside of it there.
unfoldable pub queue_fuel : List Fields → ℕ
unfolding objects_below
queue_fuel [] = 0
queue_fuel (n ∷ queue) = suc (objects_below n) + queue_fuel queue

abbrev pub empty_tally : Tally
empty_tally = record {
  nodes = 0;
  leaves = 0;
  bearing = 0;
  declared = 0;
  sources = [];
  samples = [];
}

pub record TreeSummary : Type 0 where
  pub root_count : ℕ
  pub node_count : ℕ
  pub leaf_count : ℕ
  pub member_bearing_node_count : ℕ
  pub declared_member_count : ℕ
  pub member_source_keys : List String
  pub sample_group_dns : List String

abbrev pub has_dn : Fields → Bool
has_dn n = truthy (get "distinguishedName" n)

-- Of the names of the roots the summary gives the number.
unfoldable pub summarize_user_group_tree : Items → TreeSummary
unfolding dicts queue_fuel visit_all sorted_keys
summarize_user_group_tree nodes =
    let queue = dicts nodes in
    let t = visit_all (queue_fuel queue) queue empty_tally in
    record {
      root_count = length (select has_dn queue);
      node_count = t.nodes;
      leaf_count = t.leaves;
      member_bearing_node_count = t.bearing;
      declared_member_count = t.declared;
      member_source_keys = sorted_keys t.sources;
      sample_group_dns = t.samples;
    }

-- The summary as the data of the report.
unfoldable pub summary_fields : TreeSummary → Fields
summary_fields s = field "captureMode" (str "user_group_tree_summary") (
    field "rootCount" (nat s.root_count) (
      field "nodeCount" (nat s.node_count) (
        field "leafCount" (nat s.leaf_count) (
          field "memberBearingNodeCount" (nat s.member_bearing_node_count) (
            field "declaredMemberCount" (nat s.declared_member_count) (
              field "memberSourceKeys" (texts s.member_source_keys)
                (field "sampleGroupDns" (texts s.sample_group_dns) end)))))))

-- From whether the login gave a token, and what `get_user_group_tree` answers then.
unfoldable pub collect_membership_snapshot : Bool → Result Items → Fields
unfolding summary_fields summarize_user_group_tree
collect_membership_snapshot authenticated tree =
    if authenticated
    then on_result tree
        (λ nodes. field "status" (str "collected") (
          field "captureMode" (str "user_group_tree_summary")
            (field "summary" (obj (summary_fields (summarize_user_group_tree nodes))) end)))
        (λ e.
          field "status" (str "collection_failed")
            (field "captureMode" (str "user_group_tree_summary") (field "error" (str e) end)))
    else field "status" (str "auth_unavailable") (
        field "captureMode" (str "user_group_tree_summary") (
          field "note"
            (str "liderapi authentication is required before collecting membership evidence.") end))

-- `{"status": snapshot.get("status"), **{k: summary.get(k) for k in keys}}`
abbrev pub picked : List String → Value → Fields
picked [] v = end
picked (k ∷ keys) v = field k (lookup k v) (picked keys v)

abbrev pub snapshot_actual : List String → Fields → Value
snapshot_actual keys snapshot =
    obj (field "status" (get "status" snapshot) (picked keys (get "summary" snapshot)))

unfoldable pub run_membership_snapshot_contract_check : Bool → Result Items → Check
unfolding collect_membership_snapshot build_check value_eq
run_membership_snapshot_contract_check authenticated tree =
    let snapshot = collect_membership_snapshot authenticated tree in
    build_check "membership_snapshot_contract" "scenario"
      "Runtime can collect a concrete membership snapshot from the user-group tree"
      (value_eq (get "status" snapshot) (str "collected"))
      (snapshot_actual
        ("rootCount" ∷ "nodeCount" ∷ "memberBearingNodeCount" ∷ "declaredMemberCount" ∷ [])
        snapshot)
      (obj (field "status" (str "collected") end)) (obj snapshot)
