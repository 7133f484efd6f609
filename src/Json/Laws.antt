-- ===== src/Json/Laws.antt =====
-- Equality of JSON data, on data whose `dict`s repeat no key.
use liderahenk_test_platform.Base.{
  String, ◌≡◌, refl, true, false, ◌||◌, List, [], ◌∷◌, ◌==◌, arith, eq_iff, Bool-cases, inl, inr,
  if◌then◌else◌,
}
use liderahenk_test_platform.Json.{
  ℤ, pos, negsuc, Value, null, bool, num, str, arr, obj, Items, nil, cons, Fields, end, field, has,
  get, put, int_eq, value_eq, items_eq, fields_in, texts,
}

abbrev mutual
  pub IsClean : Value → Type 0
  IsClean null = Unit
  IsClean (bool b) = Unit
  IsClean (num n) = Unit
  IsClean (str s) = Unit
  IsClean (arr xs) = IsCleanItems xs
  IsClean (obj r) = IsCleanFields r

  pub IsCleanItems : Items → Type 0
  IsCleanItems nil = Unit
  IsCleanItems (cons v xs) = IsClean v × IsCleanItems xs

  pub IsCleanFields : Fields → Type 0
  IsCleanFields end = Unit
  IsCleanFields (field k v r) = (has k r ≡ false) × IsClean v × IsCleanFields r

pub int_eq_refl : (n : ℤ) → int_eq n n ≡ true
int_eq_refl (pos n) = ground arith
int_eq_refl (negsuc n) = ground arith

-- The part `r` of `s` is found in `s` as it stands.
abbrev IsPart : Fields → Fields → Type 0
IsPart end s = Unit
IsPart (field k v r) s = (has k s ≡ true) × (get k s ≡ v) × IsPart r s

IsPart-under :
    (j : String) (w : Value) (r s : Fields) → has j r ≡ false → IsPart r s → IsPart r (field j w s)
IsPart-under j w end s h p = tt
IsPart-under j w (field k v r) s h p = ground (arith, eq_iff j k, eq_iff k j, IsPart-under j w r s)

IsPart-self : (r : Fields) → IsCleanFields r → IsPart r r
IsPart-self end c = tt
IsPart-self (field k v r) c =
    let rest : IsPart r (field k v r) = IsPart-under k v r r c.0 (IsPart-self r c.2) in
    (ground (arith, eq_iff k k), ground (arith, eq_iff k k), rest)

mutual
  unfolding value_eq

  eq_refl_value : (v : Value) → IsClean v → value_eq v v ≡ true
  eq_refl_value null c = refl
  eq_refl_value (bool true) c = refl
  eq_refl_value (bool false) c = refl
  eq_refl_value (num n) c = int_eq_refl n
  eq_refl_value (str s) c = ground (arith, eq_iff s s)
  eq_refl_value (arr xs) c = eq_refl_items xs c
  eq_refl_value (obj r) c = ground (arith, eq_refl_fields r r c (IsPart-self r c))

  eq_refl_items : (xs : Items) → IsCleanItems xs → items_eq xs xs ≡ true
  eq_refl_items nil c = refl
  eq_refl_items (cons v xs) c = ground (arith, eq_refl_value v c.0, eq_refl_items xs c.1)

  eq_refl_fields : (r s : Fields) → IsCleanFields r → IsPart r s → fields_in r s ≡ true
  eq_refl_fields end s c p = refl
  eq_refl_fields (field k v r) s c p =
      rw p.1 (ground (arith, eq_refl_value v c.1, eq_refl_fields r s c.2 p.2))

-- A value without repeated keys equals itself.
pub value_eq_refl : (v : Value) → IsClean v → value_eq v v ≡ true
value_eq_refl v c = eq_refl_value v c

-- Texts are equal data when they are equal.
pub value_eq-str : (s t : String) → value_eq (str s) (str t) ≡ true → s ≡ t
unfolding value_eq
value_eq-str s t h = (eq_iff s t).0 h

pub IsClean-texts : (xs : List String) → IsClean (texts xs)
IsClean-texts [] = tt
IsClean-texts (x ∷ xs) = (tt, IsClean-texts xs)

-- `put` as a change at one key.
pub get-put :
    (j k : String) (v : Value) (r : Fields) → get j (put k v r) ≡ (if k == j then v else get j r)
unfolding put
get-put j k v end = refl
get-put j k v (field i w r) = ground (arith, eq_iff i k, eq_iff i j, eq_iff k j, get-put j k v r)

pub has-put : (j k : String) (v : Value) (r : Fields) → has j (put k v r) ≡ (k == j || has j r)
unfolding put
has-put j k v end = refl
has-put j k v (field i w r) = ground (arith, eq_iff i k, eq_iff i j, eq_iff k j, has-put j k v r)

pub put-IsClean :
    (k : String) (v : Value) (r : Fields) → IsClean v → IsCleanFields r → IsCleanFields (put k v r)
unfolding put
put-IsClean k v end c d = (refl, c, tt)
put-IsClean k v (field i w r) c d = elim (Bool-cases (i == k)) [
  | inl e ↦ rw e (d.0, c, d.2)
  | inr e ↦ rw e (
    rw (has-put i k v r) (ground (arith, d.0, e, eq_iff i k, eq_iff k i)),
    d.1,
    put-IsClean k v r c d.2,
  )
]

pub get-IsClean : (k : String) (r : Fields) → IsCleanFields r → IsClean (get k r)
get-IsClean k end c = tt
get-IsClean k (field j v r) c = elim (Bool-cases (j == k)) [
  | inl e ↦ rw e c.1
  | inr e ↦ rw e (get-IsClean k r c.2)
]
