-- ===== src/ComputerTree/Reach.antt =====
-- The walk against reachability: a node lies in a forest as a root, or below one by the list of
-- children that counts.
use mathlib.Core.Bool.{false≢true}
use liderahenk_test_platform.Base.{
  String, ◌≡◌, ◌↔◌, sym, ◌∙◌, true, ◌⊎◌, inl, inr, ◌||◌, arith, contains, contains-append,
}
use liderahenk_test_platform.Base.Sorted.{contains-sorted_keys}
use liderahenk_test_platform.Json.{Value}
use liderahenk_test_platform.ComputerTree.{
  NodeFields, Node, Nodes, node, nil, cons, children, own_id, walk, walk_node,
  flatten_tree_agent_ids,
}

pub data Reaches (f : NodeFields) : Nodes → Type 0 where
  here : {entries others r : Nodes} → Reaches f (cons (node f entries others) r)
  later : {n : Node} {r : Nodes} → Reaches f r → Reaches f (cons n r)
  below :
      {g : NodeFields} {entries others r : Nodes}
      → Reaches f (children entries others)
      → Reaches f (cons (node g entries others) r)

module _ (repr : Value → String) (a : String) where
  -- What `walk_node` adds for a node: its own identity, and the walk over its children.
  node_parts :
      (g : NodeFields) (entries others : Nodes)
      → contains (walk_node repr (node g entries others)) a
        ≡ (contains (own_id repr g) a || contains (walk repr (children entries others)) a)
  unfolding walk
  node_parts g nil others = contains-append (own_id repr g) (walk repr others) a
  node_parts g (cons n r) others = contains-append (own_id repr g) (walk repr (cons n r)) a

  forest_parts :
      (n : Node) (r : Nodes)
      → contains (walk repr (cons n r)) a
        ≡ (contains (walk_node repr n) a || contains (walk repr r) a)
  unfolding walk
  forest_parts n r = contains-append (walk_node repr n) (walk repr r) a

  found :
      (f : NodeFields) {ns : Nodes}
      → Reaches f ns
      → contains (own_id repr f) a ≡ true
      → contains (walk repr ns) a ≡ true
  found f (here {entries} {others} {r}) h =
      ground (arith, forest_parts (node f entries others) r, node_parts f entries others)
  found f (later {n} {r} p) h = ground (arith, forest_parts n r, found f p h)
  found f (below {g} {entries} {others} {r} p) h =
      ground
        (arith, forest_parts (node g entries others) r, node_parts g entries others, found f p h)

  abbrev Origin : Nodes → Type 0
  Origin ns = (f : NodeFields) × Reaches f ns × (contains (own_id repr f) a ≡ true)

  step :
      (g : NodeFields) (entries others r : Nodes)
      → contains (walk repr (cons (node g entries others) r)) a ≡ true
      → (contains (own_id repr g) a ≡ true)
        ⊎ ((contains (walk repr (children entries others)) a ≡ true)
            ⊎ (contains (walk repr r) a ≡ true))
  step g entries others r h =
      ground (arith, forest_parts (node g entries others) r, node_parts g entries others)

  as_below :
      (g : NodeFields) (entries others r : Nodes)
      → Origin (children entries others)
      → Origin (cons (node g entries others) r)
  as_below g entries others r (f, p, h) = (f, below p, h)

  as_later : (n : Node) (r : Nodes) → Origin r → Origin (cons n r)
  as_later n r (f, p, h) = (f, later p, h)

  traced : (ns : Nodes) → contains (walk repr ns) a ≡ true → Origin ns
  traced nil h = absurd (false≢true (unfold walk in h))
  traced (cons (node g nil others) r) h = elim (step g nil others r h) [
    | inl own ↦ (g, here, own)
    | inr (inl q) ↦ as_below g nil others r (traced others q)
    | inr (inr q) ↦ as_later (node g nil others) r (traced r q)
  ]
  traced (cons (node g (cons n more) others) r) h = elim (step g (cons n more) others r h) [
    | inl own ↦ (g, here, own)
    | inr (inl q) ↦ as_below g (cons n more) others r (traced (cons n more) q)
    | inr (inr q) ↦ as_later (node g (cons n more) others) r (traced r q)
  ]

  -- An identity is listed exactly when a node that lies in the forest has it.
  pub flatten_tree_agent_ids-Reaches :
      (ns : Nodes)
      → (contains (flatten_tree_agent_ids repr ns) a ≡ true)
        ↔ ((f : NodeFields) × Reaches f ns × (contains (own_id repr f) a ≡ true))
  unfolding flatten_tree_agent_ids
  flatten_tree_agent_ids-Reaches ns = (
    λ h. traced ns (sym (contains-sorted_keys (walk repr ns) a) ∙ h),
    λ (f, p, h). contains-sorted_keys (walk repr ns) a ∙ found f p h,
  )
