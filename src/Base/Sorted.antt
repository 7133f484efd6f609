-- ===== src/Base/Sorted.antt =====
-- `sorted` and `dict.fromkeys` on lists of texts. The pair turns a list into the strictly sorted
-- list of its items, which is determined by what it contains.
pub mod Subset
use Prim.Native.String.{String}
use mathlib.Core.Path.{◌≡◌, refl, sym, ◌∙◌, ap}
use mathlib.Core.Logic.{inl, inr}
use mathlib.Core.Bool.{true, false, not, ◌&&◌, ◌||◌, false≢true}
use mathlib.Core.List.{List, [], ◌∷◌}
use native.Mathlib.Omega.{arith}
use liderahenk_test_platform.Base.Tests.{◌==◌, eq_iff, if◌then◌else◌, Bool-cases}
use liderahenk_test_platform.Base.Lists.{All, contains}
use liderahenk_test_platform.Base.Text.{text_ltb, text_ltb_irrefl, text_ltb_trans, text_ltb_total}

insert : String → List String → List String
insert x [] = x ∷ []
insert x (y ∷ ys) = let rest = insert x ys in if text_ltb y x then y ∷ rest else x ∷ y ∷ ys

-- `sorted(xs)`: a stable sort by code points
unfoldable pub sorted : List String → List String
unfolding insert text_ltb
sorted [] = []
sorted (x ∷ xs) = insert x (sorted xs)

without : String → List String → List String
without a [] = []
without a (x ∷ xs) = let rest = without a xs in if a == x then rest else x ∷ rest

-- `list(dict.fromkeys(xs))`: the first occurrences, in order
unfoldable pub from_keys : List String → List String
unfolding without
from_keys [] = []
from_keys (x ∷ xs) = x ∷ without x (from_keys xs)

-- `sorted(dict.fromkeys(xs))`, and `sorted(set(xs))`
unfoldable pub sorted_keys : List String → List String
unfolding sorted from_keys
sorted_keys xs = sorted (from_keys xs)

-- Each item lies below all that follow.
abbrev pub IsStrict : List String → Type 0
IsStrict [] = Unit
IsStrict (x ∷ xs) = All (λ y. text_ltb x y ≡ true) xs × IsStrict xs

contains-insert :
    (x : String) (ys : List String) (a : String)
    → contains (insert x ys) a ≡ (a == x || contains ys a)
unfolding insert
contains-insert x [] a = refl
contains-insert x (y ∷ ys) a = ground (arith, contains-insert x ys a)

contains-sorted : (xs : List String) (a : String) → contains (sorted xs) a ≡ contains xs a
unfolding sorted
contains-sorted [] a = refl
contains-sorted (x ∷ xs) a = rw contains-insert (ground (arith, contains-sorted xs a))

contains-without :
    (x : String) (xs : List String) (a : String)
    → contains (without x xs) a ≡ (not (a == x) && contains xs a)
unfolding without
contains-without x [] a = ground arith
contains-without x (y ∷ ys) a =
    ground (arith, contains-without x ys a, eq_iff x y, eq_iff a x, eq_iff a y)

pub contains-from_keys : (xs : List String) (a : String) → contains (from_keys xs) a ≡ contains xs a
unfolding from_keys
contains-from_keys [] a = refl
contains-from_keys (x ∷ xs) a =
    rw (contains-without x (from_keys xs) a) (ground (arith, contains-from_keys xs a))

-- The items stay.
pub contains-sorted_keys :
    (xs : List String) (a : String) → contains (sorted_keys xs) a ≡ contains xs a
unfolding sorted_keys
contains-sorted_keys xs a = contains-sorted (from_keys xs) a ∙ contains-from_keys xs a

abbrev pub IsNodup : List String → Type 0
IsNodup [] = Unit
IsNodup (x ∷ xs) = (contains xs x ≡ false) × IsNodup xs

without-IsNodup : (x : String) (xs : List String) → IsNodup xs → IsNodup (without x xs)
unfolding without
without-IsNodup x [] h = tt
without-IsNodup x (y ∷ ys) h = ground (arith, without-IsNodup x ys h.1, contains-without x ys y)

pub from_keys-IsNodup : (xs : List String) → IsNodup (from_keys xs)
unfolding from_keys
from_keys-IsNodup [] = tt
from_keys-IsNodup (x ∷ xs) = (
  rw (contains-without x (from_keys xs) x) (ground (arith, eq_iff x x)),
  without-IsNodup x (from_keys xs) (from_keys-IsNodup xs),
)

above_trans :
    (x y : String) (zs : List String)
    → text_ltb x y ≡ true
    → All (λ z. text_ltb y z ≡ true) zs
    → All (λ z. text_ltb x z ≡ true) zs
above_trans x y [] h a = tt
above_trans x y (z ∷ zs) h a = (text_ltb_trans x y z h a.0, above_trans x y zs h a.1)

above-insert :
    (y x : String) (ys : List String)
    → text_ltb y x ≡ true
    → All (λ z. text_ltb y z ≡ true) ys
    → All (λ z. text_ltb y z ≡ true) (insert x ys)
unfolding insert
above-insert y x [] h a = (h, tt)
above-insert y x (z ∷ zs) h a = elim (Bool-cases (text_ltb z x)) [
  | inl e ↦ rw e (a.0, above-insert y x zs h a.1)
  | inr e ↦ rw e (h, a)
]

-- Two different texts are in order one way or the other.
below_of_ne : (x y : String) → (x == y) ≡ false → text_ltb y x ≡ false → text_ltb x y ≡ true
below_of_ne x y ne h = elim (Bool-cases (text_ltb x y)) [
  | inl e ↦ e
  | inr e ↦ ground (arith, eq_iff x y, text_ltb_total x y e h)
]

insert-IsStrict :
    (x : String) (ys : List String) → contains ys x ≡ false → IsStrict ys → IsStrict (insert x ys)
unfolding insert
insert-IsStrict x [] n s = (tt, tt)
insert-IsStrict x (y ∷ ys) n s = elim (Bool-cases (text_ltb y x)) [
  | inl e ↦ rw e (above-insert y x ys e s.0, insert-IsStrict x ys (ground arith) s.1)
  | inr e ↦
      let below : text_ltb x y ≡ true = below_of_ne x y (ground arith) e in
      rw e ((below, above_trans x y ys below s.0), s)
]

sorted-IsStrict : (xs : List String) → IsNodup xs → IsStrict (sorted xs)
unfolding sorted
sorted-IsStrict [] h = tt
sorted-IsStrict (x ∷ xs) h =
    insert-IsStrict x (sorted xs) (contains-sorted xs x ∙ h.0) (sorted-IsStrict xs h.1)

-- The result is strictly sorted.
pub sorted_keys-IsStrict : (xs : List String) → IsStrict (sorted_keys xs)
unfolding sorted_keys
sorted_keys-IsStrict xs = sorted-IsStrict (from_keys xs) (from_keys-IsNodup xs)

below_ne : (x y : String) → text_ltb x y ≡ true → (x == y) ≡ false
below_ne x y h = elim (Bool-cases (x == y)) [
  | inl e ↦
      let same : x ≡ y = (eq_iff x y).0 e in
      absurd (false≢true (sym (text_ltb_irrefl y) ∙ ap (λ z. text_ltb z y) (sym same) ∙ h))
  | inr e ↦ e
]

pub not_above :
    (x : String) (ys : List String) → All (λ y. text_ltb x y ≡ true) ys → contains ys x ≡ false
not_above x [] a = refl
not_above x (y ∷ ys) a = ground (arith, not_above x ys a.1, below_ne x y a.0)

pub not_below :
    (x y : String) (ys : List String)
    → text_ltb x y ≡ true
    → All (λ z. text_ltb y z ≡ true) ys
    → contains (y ∷ ys) x ≡ false
not_below x y ys h a = not_above x (y ∷ ys) (h, above_trans x y ys h a)

pub contains_head : (x : String) (xs : List String) → contains (x ∷ xs) x ≡ true
contains_head x xs = ground (arith, eq_iff x x)

module _ (x y : String) (xs ys : List String) (p : IsStrict (x ∷ xs)) (q : IsStrict (y ∷ ys)) where
  same_head : ((a : String) → contains (x ∷ xs) a ≡ contains (y ∷ ys) a) → x ≡ y
  same_head h = elim (Bool-cases (text_ltb x y)) [
    | inl e ↦ absurd (false≢true (sym (not_below x y ys e q.0) ∙ sym (h x) ∙ contains_head x xs))
    | inr e ↦ elim (Bool-cases (text_ltb y x)) [
      | inl e' ↦ absurd (false≢true (sym (not_below y x xs e' p.0) ∙ h y ∙ contains_head y ys))
      | inr e' ↦ text_ltb_total x y e e'
    ]
  ]

  same_tail :
      ((a : String) → contains (x ∷ xs) a ≡ contains (y ∷ ys) a)
      → (a : String) → contains xs a ≡ contains ys a
  same_tail h a =
      ground
        (arith, h a, same_head h, eq_iff a x, eq_iff a y, not_above x xs p.0, not_above y ys q.0)

-- Strictly sorted lists with the same items are equal.
pub IsStrict-ext :
    (xs ys : List String)
    → IsStrict xs
    → IsStrict ys
    → ((a : String) → contains xs a ≡ contains ys a)
    → xs ≡ ys
IsStrict-ext [] [] p q h = refl
IsStrict-ext [] (y ∷ ys) p q h = ground (arith, h y, eq_iff y y)
IsStrict-ext (x ∷ xs) [] p q h = ground (arith, h x, eq_iff x x)
IsStrict-ext (x ∷ xs) (y ∷ ys) p q h =
    cc (same_head x y xs ys p q h, IsStrict-ext xs ys p.1 q.1 (same_tail x y xs ys p q h))

-- A list that holds the items of a strictly sorted one sorts to it.
pub sorted_keys_unique :
    (xs ys : List String)
    → IsStrict ys
    → ((a : String) → contains xs a ≡ contains ys a)
    → sorted_keys xs ≡ ys
sorted_keys_unique xs ys s h =
    IsStrict-ext (sorted_keys xs) ys (sorted_keys-IsStrict xs) s
      (λ a. contains-sorted_keys xs a ∙ h a)
