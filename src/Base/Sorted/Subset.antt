-- ===== src/Base/Sorted/Subset.antt =====
-- Strictly sorted lists of which one holds the items of the other.
use Prim.Native.Nat.{◌≤◌}
use Prim.Native.String.{String}
use mathlib.Core.Path.{◌≡◌, refl, sym, ◌∙◌, ap}
use mathlib.Core.Logic.{inl, inr}
use mathlib.Core.Bool.{true, false, false≢true}
use mathlib.Core.List.{List, [], ◌∷◌}
use native.Mathlib.Omega.{arith}
use liderahenk_test_platform.Base.Tests.{◌==◌, eq_iff, Bool-cases}
use liderahenk_test_platform.Base.Lists.{All, contains, length}
use liderahenk_test_platform.Base.Text.{text_ltb}
use liderahenk_test_platform.Base.Sorted.{IsStrict, not_above, not_below, contains_head}

abbrev pub IsSubset : List String → List String → Type 0
IsSubset xs ys = (a : String) → contains xs a ≡ true → contains ys a ≡ true

above_of_mem :
    (x : String) (ys : List String) (a : String)
    → All (λ y. text_ltb x y ≡ true) ys
    → contains ys a ≡ true
    → text_ltb x a ≡ true
above_of_mem x [] a h m = cc
above_of_mem x (y ∷ ys) a h m = elim (Bool-cases (a == y)) [
  | inl e ↦ ap (text_ltb x) ((eq_iff a y).0 e) ∙ h.0
  | inr e ↦ above_of_mem x ys a h.1 (ground arith)
]

module _ (x y : String) (xs ys : List String) (p : IsStrict (x ∷ xs)) (q : IsStrict (y ∷ ys)) where
  -- With equal heads the tails are in the same relation.
  tail_subset : (x == y) ≡ true → IsSubset (x ∷ xs) (y ∷ ys) → IsSubset xs ys
  tail_subset e h a m = ground (arith, h a, not_above x xs p.0, eq_iff x y, eq_iff a x, eq_iff a y)

  y_below : (x == y) ≡ false → IsSubset (x ∷ xs) (y ∷ ys) → contains (x ∷ xs) y ≡ false
  y_below e h = elim (Bool-cases (contains xs y)) [
    | inl m ↦ absurd (
        false≢true
          (sym (not_below x y ys (above_of_mem x xs y p.0 m) q.0) ∙ h x (contains_head x xs)))
    | inr m ↦ ground (arith, eq_iff x y, eq_iff y x)
  ]

  -- With other heads the first list lies in the second's tail.
  whole_subset : (x == y) ≡ false → IsSubset (x ∷ xs) (y ∷ ys) → IsSubset (x ∷ xs) ys
  whole_subset e h a m = elim (Bool-cases (a == y)) [
    | inl same ↦
        absurd (false≢true (sym (ap (contains (x ∷ xs)) ((eq_iff a y).0 same) ∙ y_below e h) ∙ m))
    | inr other ↦ ground (arith, h a m)
  ]

pub length-le_of_subset :
    (xs ys : List String) → IsStrict xs → IsStrict ys → IsSubset xs ys → length xs ≤ length ys
length-le_of_subset [] ys p q h = omega arith
length-le_of_subset (x ∷ xs) [] p q h = absurd (false≢true (h x (contains_head x xs)))
length-le_of_subset (x ∷ xs) (y ∷ ys) p q h = elim (Bool-cases (x == y)) [
  | inl e ↦ omega (arith, length-le_of_subset xs ys p.1 q.1 (tail_subset x y xs ys p q e h))
  | inr e ↦ omega (arith, length-le_of_subset (x ∷ xs) ys p q.1 (whole_subset x y xs ys p q e h))
]

-- A subset that is no shorter is the whole.
pub eq_of_subset :
    (xs ys : List String)
    → IsStrict xs
    → IsStrict ys
    → IsSubset xs ys
    → length ys ≤ length xs
    → xs ≡ ys
eq_of_subset [] [] p q h l = refl
eq_of_subset [] (y ∷ ys) p q h l = absurd (omega arith)
eq_of_subset (x ∷ xs) [] p q h l = absurd (false≢true (h x (contains_head x xs)))
eq_of_subset (x ∷ xs) (y ∷ ys) p q h l = elim (Bool-cases (x == y)) [
  | inl e ↦
      cc
        ((eq_iff x y).0 e, eq_of_subset xs ys p.1 q.1 (tail_subset x y xs ys p q e h) (omega arith))
  | inr e ↦
      absurd (omega (arith, length-le_of_subset (x ∷ xs) ys p q.1 (whole_subset x y xs ys p q e h)))
]
