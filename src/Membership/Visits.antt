-- ===== src/Membership/Visits.antt =====
-- The walk over the user groups against the depth-first listing of the forest.
use liderahenk_test_platform.Base.{
  ℕ, ◌+◌, String, ◌≡◌, refl, sym, ap, ◌∙◌, Bool, ◌&&◌, ◌||◌, List, [], ◌∷◌, ◌++◌, length, any,
  contains, is_nil, ltb, if◌then◌else◌, arith, contains-append, length-append,
}
use liderahenk_test_platform.Json.{Fields}
use liderahenk_test_platform.Membership.{
  iter_tree_children, node_membership_count, Tally, visit_node,
}

-- The nodes of a forest, each one before those below it, and those before the ones that follow.
pub data Lists : List Fields → List Fields → Type 0 where
  none_left : Lists [] []
  next :
      {n : Fields} {r below after : List Fields}
      → Lists (iter_tree_children n) below
      → Lists r after
      → Lists (n ∷ r) (n ∷ (below ++ after))

abbrev pub total : (Fields → ℕ) → List Fields → ℕ
total f [] = 0
total f (n ∷ ns) = f n + total f ns

total-append : (f : Fields → ℕ) (xs ys : List Fields) → total f (xs ++ ys) ≡ total f xs + total f ys
total-append f [] ys = omega arith
total-append f (x ∷ xs) ys = omega (arith, total-append f xs ys)

any-append : (p : Fields → Bool) (xs ys : List Fields) → any p (xs ++ ys) ≡ (any p xs || any p ys)
any-append p [] ys = refl
any-append p (x ∷ xs) ys = ground (arith, any-append p xs ys)

-- What a node has by itself.
abbrev pub members_of : Fields → ℕ
members_of n = (node_membership_count n).0

abbrev pub one_if : Bool → ℕ
one_if b = if b then 1 else 0

abbrev pub is_leaf : Fields → Bool
is_leaf n = is_nil (iter_tree_children n)

abbrev pub has_members : Fields → Bool
has_members n = ltb 0 (members_of n)

abbrev pub counts_by : String → Fields → Bool
counts_by a n = has_members n && contains ((node_membership_count n).1) a

-- A walk adds to its variables what the nodes of a list have.
pub record Adds (t u : Tally) (vs : List Fields) : Type 0 where
  pub nodes : u.nodes ≡ t.nodes + length vs
  pub leaves : u.leaves ≡ t.leaves + total (λ n. one_if (is_leaf n)) vs
  pub bearing : u.bearing ≡ t.bearing + total (λ n. one_if (has_members n)) vs
  pub declared : u.declared ≡ t.declared + total members_of vs
  pub sources : (a : String) → contains u.sources a ≡ (contains t.sources a || any (counts_by a) vs)

visit_node-leaves :
    (n : Fields) (t : Tally) → (visit_node n t).leaves ≡ t.leaves + one_if (is_leaf n)
unfolding visit_node
visit_node-leaves n t = ground arith

visit_node-bearing :
    (n : Fields) (t : Tally) → (visit_node n t).bearing ≡ t.bearing + one_if (has_members n)
unfolding visit_node
visit_node-bearing n t = ground arith

visit_node-declared :
    (n : Fields) (t : Tally) → (visit_node n t).declared ≡ t.declared + members_of n
unfolding visit_node
visit_node-declared n t = ground arith

visit_node-sources :
    (n : Fields) (t : Tally) (a : String)
    → contains (visit_node n t).sources a ≡ (contains t.sources a || counts_by a n)
unfolding visit_node
visit_node-sources n t a = ground (arith, contains-append t.sources ((node_membership_count n).1) a)

visit_node-nodes : (n : Fields) (t : Tally) → (visit_node n t).nodes ≡ t.nodes + 1
unfolding visit_node
visit_node-nodes n t = refl

-- The listing visits the nodes below `n` before the others, the walk after them.
pub Adds-visit_node :
    (n : Fields) (t u : Tally) (after below : List Fields)
    → Adds (visit_node n t) u (after ++ below)
    → Adds t u (n ∷ (below ++ after))
Adds-visit_node n t u after below h = record {
  nodes =
      omega (
        arith,
        h.nodes,
        visit_node-nodes n t,
        length-append after below,
        length-append below after,
      );
  leaves = omega (
    arith,
    h.leaves,
    visit_node-leaves n t,
    total-append (λ m. one_if (is_leaf m)) after below,
    total-append (λ m. one_if (is_leaf m)) below after,
  );
  bearing = omega (
    arith,
    h.bearing,
    visit_node-bearing n t,
    total-append (λ m. one_if (has_members m)) after below,
    total-append (λ m. one_if (has_members m)) below after,
  );
  declared = omega (
    arith,
    h.declared,
    visit_node-declared n t,
    total-append members_of after below,
    total-append members_of below after,
  );
  sources = λ a. ground (
    arith,
    h.sources a,
    visit_node-sources n t a,
    any-append (counts_by a) after below,
    any-append (counts_by a) below after,
  );
}

-- A listing of two forests together is one of each.
pub record Parts (xs ys vs : List Fields) : Type 0 where
  pub first : List Fields
  pub second : List Fields
  pub joined : vs ≡ first ++ second
  pub first_lists : Lists xs first
  pub second_lists : Lists ys second

pub append_nil : (xs : List Fields) → xs ++ [] ≡ xs
append_nil [] = refl
append_nil (x ∷ xs) = ap (λ r. x ∷ r) (append_nil xs)

append_assoc : (xs ys zs : List Fields) → (xs ++ ys) ++ zs ≡ xs ++ (ys ++ zs)
append_assoc [] ys zs = refl
append_assoc (x ∷ xs) ys zs = ap (λ r. x ∷ r) (append_assoc xs ys zs)

pub parts : (xs ys vs : List Fields) → Lists (xs ++ ys) vs → Parts xs ys vs
parts [] ys vs h = record {
  first = [];
  second = vs;
  joined = refl;
  first_lists = none_left;
  second_lists = h;
}
parts (x ∷ xs) ys _ (next {below} {after} p q) =
    let rest : Parts xs ys after = parts xs ys after q in
    record {
      first = x ∷ (below ++ rest.first);
      second = rest.second;
      joined =
          ap (λ r. x ∷ r)
            (ap (λ r. below ++ r) rest.joined ∙ sym (append_assoc below rest.first rest.second));
      first_lists = next p rest.first_lists;
      second_lists = rest.second_lists;
    }
