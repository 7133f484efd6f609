-- ===== src/Membership/Fuel.antt =====
-- The fuel of the walk over the user groups: each pass takes an object off the queue.
use liderahenk_test_platform.Base.{
  ℕ, suc, ◌+◌, ◌≤◌, String, ◌≡◌, refl, false, List, [], ◌∷◌, ◌++◌, ◌==◌, arith, eq_iff,
}
use liderahenk_test_platform.Json.{
  Value, null, bool, num, str, arr, obj, Items, nil, cons, Fields, end, field, get,
}
use liderahenk_test_platform.Membership.{
  dicts, entries_of, iter_tree_children, objects, objects_below, objects_among, queue_fuel,
}

-- The fuel: what is inside of a node is more than its children have.
queue_fuel-append : (xs ys : List Fields) → queue_fuel (xs ++ ys) ≡ queue_fuel xs + queue_fuel ys
unfolding queue_fuel
queue_fuel-append [] ys = omega arith
queue_fuel-append (x ∷ xs) ys = omega (arith, queue_fuel-append xs ys)

queue_fuel-dicts : (vs : Items) → queue_fuel (dicts vs) ≤ objects_among vs
unfolding queue_fuel dicts objects
queue_fuel-dicts nil = omega arith
queue_fuel-dicts (cons null vs) = omega (arith, queue_fuel-dicts vs)
queue_fuel-dicts (cons (bool b) vs) = omega (arith, queue_fuel-dicts vs)
queue_fuel-dicts (cons (num n) vs) = omega (arith, queue_fuel-dicts vs)
queue_fuel-dicts (cons (str s) vs) = omega (arith, queue_fuel-dicts vs)
queue_fuel-dicts (cons (arr xs) vs) = omega (arith, queue_fuel-dicts vs)
queue_fuel-dicts (cons (obj r) vs) = omega (arith, queue_fuel-dicts vs)

queue_fuel-entries_of : (v : Value) → queue_fuel (entries_of v) ≤ objects v
unfolding queue_fuel entries_of objects
queue_fuel-entries_of (arr vs) = queue_fuel-dicts vs
queue_fuel-entries_of null = omega arith
queue_fuel-entries_of (bool b) = omega arith
queue_fuel-entries_of (num n) = omega arith
queue_fuel-entries_of (str s) = omega arith
queue_fuel-entries_of (obj r) = omega arith

objects-get : (k : String) (r : Fields) → objects (get k r) ≤ objects_below r
unfolding objects
objects-get k end = omega arith
objects-get k (field j v r) = ground (arith, objects-get k r)

objects-get_both :
    (k l : String) (r : Fields)
    → k == l ≡ false
    → objects (get k r) + objects (get l r) ≤ objects_below r
unfolding objects
objects-get_both k l end h = omega arith
objects-get_both k l (field j v r) h = ground (
  arith,
  eq_iff j k,
  eq_iff j l,
  eq_iff k l,
  objects-get k r,
  objects-get l r,
  objects-get_both k l r h,
)

-- The children of a node are objects inside of it.
queue_fuel-children : (n : Fields) → queue_fuel (iter_tree_children n) ≤ objects_below n
unfolding iter_tree_children
queue_fuel-children n = omega (
  arith,
  queue_fuel-append (entries_of (get "childEntries" n)) (entries_of (get "children" n)),
  queue_fuel-entries_of (get "childEntries" n),
  queue_fuel-entries_of (get "children" n),
  objects-get_both "childEntries" "children" n refl,
)

-- After a pass the rest of the fuel is enough.
pub queue_fuel-pass :
    (fuel : ℕ) (n : Fields) (queue : List Fields)
    → queue_fuel (n ∷ queue) ≤ suc fuel
    → queue_fuel (queue ++ iter_tree_children n) ≤ fuel
unfolding queue_fuel
queue_fuel-pass fuel n queue h =
    omega (arith, h, queue_fuel-append queue (iter_tree_children n), queue_fuel-children n)

pub queue_fuel-positive : (n : Fields) (queue : List Fields) → queue_fuel (n ∷ queue) ≤ 0 → ⊥
unfolding queue_fuel
queue_fuel-positive n queue h = omega (arith, h)
