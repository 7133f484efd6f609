-- ===== src/Base/Lists.antt =====
-- Lists over the native numbers, membership as a test, and `all`.
use Prim.Native.Nat.{ℕ, suc, ◌+◌}
use Prim.Native.String.{String}
use mathlib.Core.Path.{◌≡◌, refl, ap, sym}
use mathlib.Core.Bool.{Bool, true, false, ◌&&◌, ◌||◌}
use mathlib.Core.List.{List, [], ◌∷◌, ◌++◌}
use native.Mathlib.Omega.{arith}
use liderahenk_test_platform.Base.Tests.{◌==◌, eq_iff, if◌then◌else◌}

module _ {ℓ} {A : Type ℓ} where
  abbrev pub length : List A → ℕ
  length [] = 0
  length (x ∷ xs) = suc (length xs)

  -- `all(p(x) for x in xs)` and `any(p(x) for x in xs)`
  abbrev pub all : (A → Bool) → List A → Bool
  all p [] = true
  all p (x ∷ xs) = p x && all p xs

  abbrev pub any : (A → Bool) → List A → Bool
  any p [] = false
  any p (x ∷ xs) = p x || any p xs

  -- `[x for x in xs if p(x)]`
  abbrev pub select : (A → Bool) → List A → List A
  select p [] = []
  select p (x ∷ xs) = let rest = select p xs in if p x then x ∷ rest else rest

  abbrev pub is_nil : List A → Bool
  is_nil [] = true
  is_nil (x ∷ xs) = false

  -- `xs[-1] if xs else d`
  abbrev pub last_or : A → List A → A
  last_or d [] = d
  last_or d (x ∷ xs) = last_or x xs

  pub length-append : (xs ys : List A) → length (xs ++ ys) ≡ length xs + length ys
  length-append [] ys = omega arith
  length-append (x ∷ xs) ys = omega (arith, length-append xs ys)

  pub is_nil-append : (xs ys : List A) → is_nil (xs ++ ys) ≡ (is_nil xs && is_nil ys)
  is_nil-append [] ys = refl
  is_nil-append (x ∷ xs) ys = refl

  pub is_nil→nil : (xs : List A) → is_nil xs ≡ true → xs ≡ []
  is_nil→nil [] h = refl
  is_nil→nil (x ∷ xs) h = cc

-- A predicate at every item.
abbrev pub All {ℓ κ} : {A : Type ℓ} → (A → Type κ) → List A → Type κ
All P [] = Unit
All P (x ∷ xs) = P x × All P xs

-- `a in xs`
abbrev pub contains : List String → String → Bool
contains [] a = false
contains (x ∷ xs) a = a == x || contains xs a

pub contains-append :
    (xs ys : List String) (a : String) → contains (xs ++ ys) a ≡ (contains xs a || contains ys a)
contains-append [] ys a = refl
contains-append (x ∷ xs) ys a = ground (arith, contains-append xs ys a)

pub contains-select :
    (p : String → Bool) (xs : List String) (a : String)
    → contains (select p xs) a ≡ (contains xs a && p a)
contains-select p [] a = refl
contains-select p (x ∷ xs) a =
    let same : a == x ≡ true → p x ≡ p a = λ e. ap p (sym ((eq_iff a x).0 e)) in
    ground (arith, same, contains-select p xs a)

-- Equality of lists of texts.
abbrev pub same_texts : List String → List String → Bool
same_texts [] [] = true
same_texts (x ∷ xs) (y ∷ ys) = x == y && same_texts xs ys
same_texts _ _ = false

pub same_texts→eq : (xs ys : List String) → same_texts xs ys ≡ true → xs ≡ ys
same_texts→eq [] [] h = refl
same_texts→eq [] (y ∷ ys) h = cc
same_texts→eq (x ∷ xs) [] h = cc
same_texts→eq (x ∷ xs) (y ∷ ys) h = ground (arith, eq_iff x y, same_texts→eq xs ys)

pub same_texts_refl : (xs : List String) → same_texts xs xs ≡ true
same_texts_refl [] = refl
same_texts_refl (x ∷ xs) = ground (arith, eq_iff x x, same_texts_refl xs)
