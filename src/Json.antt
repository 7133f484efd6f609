-- ===== src/Json.antt =====
-- Python's view of JSON data: `None`, `bool`, `int`, `str`, `list` and `dict`, with truth,
-- equality, `dict.get` and `in`. Floats are left out: the artifacts hold none.
pub mod Laws
use liderahenk_test_platform.Base.{
  ℕ, zero, suc, ◌+◌, String, ◌<>◌, Bool, true, false, not, ◌&&◌, ◌||◌, Option, none, some, List, [],
  ◌∷◌, ◌==◌, eqb, ltb, leb, if◌then◌else◌, contains,
}

-- `negsuc n` is -(n + 1).
pub data ℤ : Type 0 where
  pos : ℕ → ℤ
  negsuc : ℕ → ℤ

mutual
  -- an object keeps the order of its keys
  pub data Fields : Type 0 where
    end : Fields
    field : String → Value → Fields → Fields

  pub data Value : Type 0 where
    null : Value
    bool : Bool → Value
    num : ℤ → Value
    str : String → Value
    arr : Items → Value
    obj : Fields → Value

  pub data Items : Type 0 where
    nil : Items
    cons : Value → Items → Items

abbrev pub items : List Value → Items
items [] = nil
items (v ∷ vs) = cons v (items vs)

abbrev pub from_items : Items → List Value
from_items nil = []
from_items (cons v vs) = v ∷ from_items vs

abbrev pub fields : List (String × Value) → Fields
fields [] = end
fields ((k, v) ∷ r) = field k v (fields r)

abbrev pub from_fields : Fields → List (String × Value)
from_fields end = []
from_fields (field k v r) = (k, v) ∷ from_fields r

-- A list of texts, and a natural number, as data.
abbrev pub text_values : List String → List Value
text_values [] = []
text_values (s ∷ r) = str s ∷ text_values r

abbrev pub texts : List String → Value
texts xs = arr (items (text_values xs))

abbrev pub nat : ℕ → Value
nat n = num (pos n)

-- `k in d`, and `d.get(k)`, which is `None` for a missing key
abbrev pub has : String → Fields → Bool
has k end = false
has k (field j v r) = j == k || has k r

abbrev pub get : String → Fields → Value
get k end = null
get k (field j v r) = if j == k then v else get k r

-- `d[k] = v`
unfoldable pub put : String → Value → Fields → Fields
put k v end = field k v end
put k v (field j w r) = let rest = put k v r in if j == k then field j v r else field j w rest

-- `d.get(k)` where `d` was tested to be a `dict`; anything else has no key
abbrev pub lookup : String → Value → Value
lookup k (obj r) = get k r
lookup k _ = null

-- `bool(v)`
abbrev pub is_zero : ℤ → Bool
is_zero (pos zero) = true
is_zero _ = false

abbrev pub is_end : Fields → Bool
is_end end = true
is_end _ = false

abbrev pub truthy : Value → Bool
truthy null = false
truthy (bool b) = b
truthy (num n) = not (is_zero n)
truthy (str s) = not (s == "")
truthy (arr nil) = false
truthy (arr (cons _ _)) = true
truthy (obj r) = not (is_end r)

-- `a or b`
abbrev pub or_else : Value → Value → Value
or_else a b = if truthy a then a else b

abbrev pub is_null : Value → Bool
is_null null = true
is_null _ = false

-- `isinstance(v, dict)`, `list`, `bool`, `str`; a `bool` is an `int` too
abbrev pub is_dict : Value → Bool
is_dict (obj _) = true
is_dict _ = false

abbrev pub is_list : Value → Bool
is_list (arr _) = true
is_list _ = false

abbrev pub is_bool : Value → Bool
is_bool (bool _) = true
is_bool _ = false

abbrev pub is_str : Value → Bool
is_str (str _) = true
is_str _ = false

-- The number that `isinstance(v, int)` finds: `True` is 1 and `False` is 0.
abbrev pub as_int : Value → Option ℤ
as_int (bool true) = some (pos 1)
as_int (bool false) = some (pos 0)
as_int (num n) = some n
as_int _ = none

abbrev pub as_dict : Value → Option Fields
as_dict (obj r) = some r
as_dict _ = none

abbrev pub as_list : Value → Option (List Value)
as_list (arr xs) = some (from_items xs)
as_list _ = none

abbrev pub int_eq : ℤ → ℤ → Bool
int_eq (pos a) (pos b) = eqb a b
int_eq (negsuc a) (negsuc b) = eqb a b
int_eq _ _ = false

-- `a < b`
abbrev pub int_ltb : ℤ → ℤ → Bool
int_ltb (pos a) (pos b) = ltb a b
int_ltb (pos a) (negsuc b) = false
int_ltb (negsuc a) (pos b) = true
int_ltb (negsuc a) (negsuc b) = ltb b a

abbrev pub bool_eq : Bool → Bool → Bool
bool_eq true b = b
bool_eq false b = not b

abbrev bool_int : Bool → ℤ
bool_int true = pos 1
bool_int false = pos 0

abbrev size_fields : Fields → ℕ
size_fields end = 0
size_fields (field _ _ r) = suc (size_fields r)

-- `a == b`. Numbers and Booleans compare as numbers, and the order of a `dict` does not count:
-- each key of the left one is there on the right, with an equal value, and they are as many.
unfoldable mutual
  pub value_eq : Value → Value → Bool
  value_eq null b = is_null b
  value_eq (bool a) b = elim (as_int b) [ none ↦ false | some n ↦ int_eq (bool_int a) n ]
  value_eq (num a) b = elim (as_int b) [ none ↦ false | some n ↦ int_eq a n ]
  value_eq (str a) b = elim b [ str t ↦ a == t | _ ↦ false ]
  value_eq (arr xs) b = elim b [ arr ys ↦ items_eq xs ys | _ ↦ false ]
  value_eq (obj r) b = elim b [
    | obj s ↦ eqb (size_fields r) (size_fields s) && fields_in r s
    | _ ↦ false
  ]

  pub items_eq : Items → Items → Bool
  items_eq nil ys = elim ys [ nil ↦ true | cons _ _ ↦ false ]
  items_eq (cons x xs) ys = elim ys [ nil ↦ false | cons y ys' ↦ value_eq x y && items_eq xs ys' ]

  pub fields_in : Fields → Fields → Bool
  fields_in end s = true
  fields_in (field k v r) s = has k s && value_eq v (get k s) && fields_in r s
