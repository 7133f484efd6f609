-- ===== src/Base/Text.antt =====
-- Python's `str` methods that the program uses, character by character.
pub mod Append
use liderahenk_test_platform.Base.Tests.{◌==◌, ltb, leb, eqb, if◌then◌else◌, Bool-cases}
use Prim.Native.Nat.{ℕ, zero, suc, ◌-◌, ◌/◌, ◌%◌, compare, Ordering}
use Prim.Native.Char.{code}
use Prim.Native.String.{String, ◌++◌ as ◌<>◌}
use mathlib.Core.Path.{◌≡◌, refl, ap₂}
use mathlib.Core.Logic.{inl, inr}
use mathlib.Core.Bool.{Bool, true, false, ◌&&◌, ◌||◌}
use mathlib.Core.List.{List, [], ◌∷◌}
use native.Mathlib.Omega.{arith}
use text.Mathlib.TextEquality.{Char-path}

-- `str.isspace` at one code point.
unfoldable pub is_space : ℕ → Bool
is_space c =
    leb 9 c && leb c 13
    || leb 28 c && leb c 32
    || eqb c 133
    || eqb c 160
    || eqb c 5760
    || leb 8192 c && leb c 8202
    || eqb c 8232
    || eqb c 8233
    || eqb c 8239
    || eqb c 8287
    || eqb c 12288

abbrev pub is_empty : String → Bool
is_empty String.[] = true
is_empty (String.◌∷◌ c s) = false

-- `s.lstrip()`
unfoldable pub lstrip : String → String
unfolding is_space
lstrip String.[] = String.[]
lstrip (String.◌∷◌ c s) = let rest = lstrip s in if is_space (code c) then rest else String.◌∷◌ c s

-- `s.rstrip()`
unfoldable pub rstrip : String → String
unfolding is_space
rstrip String.[] = String.[]
rstrip (String.◌∷◌ c s) =
    let rest = rstrip s in
    if is_space (code c) && is_empty rest then String.[] else String.◌∷◌ c rest

-- `s.strip()`
unfoldable pub strip : String → String
unfolding lstrip rstrip
strip s = rstrip (lstrip s)

-- `sep in s` at one character
unfoldable pub has_char : ℕ → String → Bool
has_char k String.[] = false
has_char k (String.◌∷◌ c s) = eqb (code c) k || has_char k s

-- `s.split(sep, 1)[0]` at one character
unfoldable pub before : ℕ → String → String
before k String.[] = String.[]
before k (String.◌∷◌ c s) =
    let rest = before k s in if eqb (code c) k then String.[] else String.◌∷◌ c rest

-- `s.split(sep, 1)[1]`, at a text that has the separator
unfoldable pub after : ℕ → String → String
after k String.[] = String.[]
after k (String.◌∷◌ c s) = let rest = after k s in if eqb (code c) k then s else rest

-- `len(s)`, in characters
unfoldable pub chars : String → ℕ
chars String.[] = 0
chars (String.◌∷◌ c s) = suc (chars s)

-- `s.startswith(t)`
unfoldable pub starts_with : String → String → Bool
starts_with s String.[] = true
starts_with String.[] (String.◌∷◌ d t) = false
starts_with (String.◌∷◌ c s) (String.◌∷◌ d t) = eqb (code c) (code d) && starts_with s t

-- `t in s`
unfoldable pub has_text : String → String → Bool
unfolding starts_with
has_text t String.[] = is_empty t
has_text t (String.◌∷◌ c s) = starts_with (String.◌∷◌ c s) t || has_text t s

-- The characters left to skip, and the rest of the text.
replace_after : ℕ → String → String → String → String
replace_after skip old new String.[] = String.[]
replace_after zero old new (String.◌∷◌ c s) =
    let here = new <> replace_after (chars old - 1) old new s in
    let there = String.◌∷◌ c (replace_after 0 old new s) in
    if starts_with (String.◌∷◌ c s) old then here else there
replace_after (suc skip) old new (String.◌∷◌ c s) = replace_after skip old new s

-- `s.replace(old, new)`, for an `old` that is not empty
unfoldable pub replace : String → String → String → String
unfolding replace_after starts_with chars
replace old new s = replace_after 0 old new s

-- `s.endswith(t)`
unfoldable pub ends_with : String → String → Bool
ends_with String.[] t = is_empty t
ends_with (String.◌∷◌ c s) t = String.◌∷◌ c s == t || ends_with s t

-- `s[:-n]`, for a positive `n`
unfoldable pub drop_right : ℕ → String → String
unfolding chars
drop_right n String.[] = String.[]
drop_right n (String.◌∷◌ c s) =
    let rest = drop_right n s in if leb n (chars s) then String.◌∷◌ c rest else String.[]

digit : ℕ → String
digit d =
    if eqb d 0
    then "0"
    else if eqb d 1
    then "1"
    else if eqb d 2
    then "2"
    else if eqb d 3
    then "3"
    else if eqb d 4
    then "4"
    else if eqb d 5
    then "5"
    else if eqb d 6
    then "6"
    else if eqb d 7
    then "7"
    else if eqb d 8
    then "8"
    else "9"

decimal_onto : ℕ → ℕ → String → String
decimal_onto zero n acc = acc
decimal_onto (suc fuel) n acc =
    let more = decimal_onto fuel (n / 10) (digit (n % 10) <> acc) in
    if ltb n 10 then digit n <> acc else more

-- `str(n)`. A number has fewer digits than `n + 1`, so the fuel does.
unfoldable pub decimal : ℕ → String
unfolding decimal_onto digit
decimal n = decimal_onto (suc n) n ""

-- `sep.join(xs)`
unfoldable pub join : String → List String → String
join sep [] = ""
join sep (x ∷ []) = x
join sep (x ∷ y ∷ r) = x <> (sep <> join sep (y ∷ r))

pub has_char-before : (k : ℕ) (s : String) → has_char k (before k s) ≡ false
unfolding has_char before
has_char-before k String.[] = refl
has_char-before k (String.◌∷◌ c s) = elim (Bool-cases (eqb (code c) k)) [
  | inl e ↦ rw e
  | inr e ↦ rw (e, has_char) (rw e (has_char-before k s))
]

pub before_absent : (k : ℕ) (s : String) → has_char k s ≡ false → before k s ≡ s
unfolding has_char before
before_absent k String.[] h = refl
before_absent k (String.◌∷◌ c s) h = ground (arith, before_absent k s)

-- A character that a text lacks is lacked by a part of it too.
pub has_char-before_other :
    (j k : ℕ) (s : String) → has_char j s ≡ false → has_char j (before k s) ≡ false
unfolding has_char before
has_char-before_other j k String.[] h = refl
has_char-before_other j k (String.◌∷◌ c s) h = elim (Bool-cases (eqb (code c) k)) [
  | inl e ↦ rw e
  | inr e ↦ rw e (ground (arith, has_char-before_other j k s))
]

pub has_char-after_other :
    (j k : ℕ) (s : String) → has_char j s ≡ false → has_char j (after k s) ≡ false
unfolding has_char after
has_char-after_other j k String.[] h = refl
has_char-after_other j k (String.◌∷◌ c s) h = ground (arith, has_char-after_other j k s)

-- `s < t` on texts: by code points
unfoldable pub text_ltb : String → String → Bool
text_ltb String.[] String.[] = false
text_ltb String.[] (String.◌∷◌ d t) = true
text_ltb (String.◌∷◌ c s) String.[] = false
text_ltb (String.◌∷◌ c s) (String.◌∷◌ d t) =
    let rest = text_ltb s t in
    elim (compare (code c) (code d)) [
      | Ordering.lt ↦ true
      | Ordering.eq ↦ rest
      | Ordering.gt ↦ false
    ]

pub text_ltb_irrefl : (s : String) → text_ltb s s ≡ false
unfolding text_ltb
text_ltb_irrefl String.[] = refl
text_ltb_irrefl (String.◌∷◌ c s) = ground (arith, text_ltb_irrefl s)

pub text_ltb_trans :
    (s t u : String) → text_ltb s t ≡ true → text_ltb t u ≡ true → text_ltb s u ≡ true
unfolding text_ltb
text_ltb_trans String.[] String.[] u p q = q
text_ltb_trans String.[] (String.◌∷◌ d t) String.[] p q = q
text_ltb_trans String.[] (String.◌∷◌ d t) (String.◌∷◌ e u) p q = refl
text_ltb_trans (String.◌∷◌ c s) String.[] u p q = cc
text_ltb_trans (String.◌∷◌ c s) (String.◌∷◌ d t) String.[] p q = cc
text_ltb_trans (String.◌∷◌ c s) (String.◌∷◌ d t) (String.◌∷◌ e u) p q =
    ground (arith, text_ltb_trans s t u)

pub text_ltb_total : (s t : String) → text_ltb s t ≡ false → text_ltb t s ≡ false → s ≡ t
unfolding text_ltb
text_ltb_total String.[] String.[] p q = refl
text_ltb_total String.[] (String.◌∷◌ d t) p q = cc
text_ltb_total (String.◌∷◌ c s) String.[] p q = cc
text_ltb_total (String.◌∷◌ c s) (String.◌∷◌ d t) p q =
    let same_head : c ≡ d = Char-path c d (ground arith) in
    let same_tail : s ≡ t = text_ltb_total s t (ground arith) (ground arith) in
    ap₂ (λ x y. String.◌∷◌ x y) same_head same_tail
