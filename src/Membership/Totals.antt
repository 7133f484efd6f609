-- ===== src/Membership/Totals.antt =====
-- The summary of the user groups against the depth-first listing of the forest: whatever the order
-- of the walk, the numbers are those of the listing.
use mathlib.Core.Path.{subst}
use liderahenk_test_platform.Base.{
  ℕ, zero, suc, ◌≤◌, String, ◌≡◌, ◌∙◌, List, [], ◌∷◌, ◌++◌, length, any, contains, arith,
  length-append,
}
use liderahenk_test_platform.Base.Sorted.{contains-sorted_keys}
use liderahenk_test_platform.Json.{Value, null, bool, num, str, arr, obj, Items, Fields, get}
use liderahenk_test_platform.Membership.{
  dicts, iter_tree_children, Tally, empty_tally, sampled, visit_node, visit_all, queue_fuel,
  TreeSummary, summarize_user_group_tree,
}
use liderahenk_test_platform.Membership.Visits.{
  Lists, none_left, next, total, members_of, one_if, is_leaf, has_members, counts_by, Adds,
  Adds-visit_node, Parts, parts,
}
use liderahenk_test_platform.Membership.Fuel.{queue_fuel-pass, queue_fuel-positive}

-- A list of the nodes that the walk has visited.
record Listed (queue : List Fields) (t u : Tally) : Type 0 where
  listing : List Fields
  lists : Lists queue listing
  adds : Adds t u listing

nothing-Adds : (t : Tally) → Adds t t []
nothing-Adds t = record {
  nodes = omega arith;
  leaves = omega arith;
  bearing = omega arith;
  declared = omega arith;
  sources = λ a. ground arith;
}

nothing-Listed : (t : Tally) → Listed [] t t
nothing-Listed t = record { listing = []; lists = none_left; adds = nothing-Adds t }

Listed-more :
    (n : Fields) (queue : List Fields) (t u : Tally)
    → Listed (queue ++ iter_tree_children n) (visit_node n t) u
    → Listed (n ∷ queue) t u
Listed-more n queue t u h =
    let both : Parts queue (iter_tree_children n) h.listing =
      parts queue (iter_tree_children n) h.listing h.lists in
    record {
      listing = n ∷ (both.second ++ both.first);
      lists = next both.second_lists both.first_lists;
      adds =
          Adds-visit_node n t u both.first both.second
            (subst (λ vs. Adds (visit_node n t) u vs) both.joined h.adds);
    }

visit_all-Listed :
    (fuel : ℕ) (queue : List Fields) (t : Tally)
    → queue_fuel queue ≤ fuel
    → Listed queue t (visit_all fuel queue t)
unfolding visit_all
visit_all-Listed zero [] t h = nothing-Listed t
visit_all-Listed zero (n ∷ queue) t h = absurd (queue_fuel-positive n queue h)
visit_all-Listed (suc fuel) [] t h = nothing-Listed t
visit_all-Listed (suc fuel) (n ∷ queue) t h =
    Listed-more n queue t (visit_all fuel (queue ++ iter_tree_children n) (visit_node n t)) (
      visit_all-Listed fuel (queue ++ iter_tree_children n) (visit_node n t)
        (queue_fuel-pass fuel n queue h))

sampled-le : (v : Value) (found : List String) → length found ≤ 5 → length (sampled v found) ≤ 5
unfolding sampled
sampled-le (str s) found h = ground (arith, length-append found (s ∷ []))
sampled-le null found h = h
sampled-le (bool b) found h = h
sampled-le (num n) found h = h
sampled-le (arr vs) found h = h
sampled-le (obj r) found h = h

visit_all-samples :
    (fuel : ℕ) (queue : List Fields) (t : Tally)
    → length t.samples ≤ 5
    → length (visit_all fuel queue t).samples ≤ 5
unfolding visit_all visit_node
visit_all-samples zero queue t h = h
visit_all-samples (suc fuel) [] t h = h
visit_all-samples (suc fuel) (n ∷ queue) t h =
    visit_all-samples fuel (queue ++ iter_tree_children n) (visit_node n t)
      (sampled-le (get "distinguishedName" n) t.samples h)

-- The numbers of a summary are those of a listing, a source is named exactly when a node with
-- members has it, and there are at most five samples.
abbrev pub IsTotal : TreeSummary → List Fields → Type 0
IsTotal s vs =
    (s.node_count ≡ length vs)
    × (s.leaf_count ≡ total (λ n. one_if (is_leaf n)) vs)
    × (s.member_bearing_node_count ≡ total (λ n. one_if (has_members n)) vs)
    × (s.declared_member_count ≡ total members_of vs)
    × ((a : String) → contains s.member_source_keys a ≡ any (counts_by a) vs)
    × (length s.sample_group_dns ≤ 5)

-- The walk visits every node of the forest once: there is a depth-first listing of it such that
-- the summary counts its nodes, its leaves and the nodes with members, adds up the members of all
-- of them, and names a source exactly when a node with members has it. It has at most five samples.
pub summarize_user_group_tree_lem :
    (tree : Items)
    → (vs : List Fields) × Lists (dicts tree) vs × IsTotal (summarize_user_group_tree tree) vs
unfolding summarize_user_group_tree
summarize_user_group_tree_lem tree =
    let queue = dicts tree in
    let t = visit_all (queue_fuel queue) queue empty_tally in
    let walk : Listed queue empty_tally t =
      visit_all-Listed (queue_fuel queue) queue empty_tally (omega arith) in
    (
      walk.listing,
      walk.lists,
      (
        omega (arith, walk.adds.nodes),
        omega (arith, walk.adds.leaves),
        omega (arith, walk.adds.bearing),
        omega (arith, walk.adds.declared),
        (λ a. contains-sorted_keys t.sources a ∙ walk.adds.sources a),
        visit_all-samples (queue_fuel queue) queue empty_tally (omega arith),
      ),
    )
