-- ===== src/Base/Text/Append.antt =====
-- The text functions at a concatenation.
use Prim.Native.Nat.{ℕ, ◌+◌, ◌≤◌}
use Prim.Native.Char.{code}
use Prim.Native.String.{String, ◌++◌ as ◌<>◌}
use mathlib.Core.Path.{◌≡◌, refl}
use mathlib.Core.Bool.{Bool, true, false, not, ◌&&◌, ◌||◌}
use native.Mathlib.Omega.{arith}
use text.Mathlib.TextLemmas.{nil-append, cons-append}
use liderahenk_test_platform.Base.Tests.{eq_iff}
use liderahenk_test_platform.Base.Text.{
  is_space, rstrip, has_char, before, after, chars, ends_with, drop_right,
}

-- No character of the text passes the test.
abbrev pub avoids : (ℕ → Bool) → String → Bool
avoids p String.[] = true
avoids p (String.◌∷◌ c s) = not (p (code c)) && avoids p s

pub has_char-append : (k : ℕ) (s t : String) → has_char k (s <> t) ≡ (has_char k s || has_char k t)
unfolding has_char
has_char-append k String.[] t = rw nil-append
has_char-append k (String.◌∷◌ c s) t = rw cons-append (ground (arith, has_char-append k s t))

pub before-append :
    (k : ℕ) (s t : String) → has_char k s ≡ false → before k (s <> t) ≡ s <> before k t
unfolding before has_char
before-append k String.[] t h = rw (nil-append, nil-append)
before-append k (String.◌∷◌ c s) t h =
    rw (cons-append, cons-append) (ground (arith, before-append k s t))

pub after-append : (k : ℕ) (s t : String) → has_char k s ≡ false → after k (s <> t) ≡ after k t
unfolding after has_char
after-append k String.[] t h = rw nil-append
after-append k (String.◌∷◌ c s) t h = rw cons-append (ground (arith, after-append k s t))

pub rstrip-append : (s t : String) → avoids is_space s ≡ true → rstrip (s <> t) ≡ s <> rstrip t
unfolding rstrip
rstrip-append String.[] t h = rw (nil-append, nil-append)
rstrip-append (String.◌∷◌ c s) t h =
    rw (cons-append, cons-append) (ground (arith, rstrip-append s t))

pub chars-append : (s t : String) → chars (s <> t) ≡ chars s + chars t
unfolding chars
chars-append String.[] t = rw nil-append (omega arith)
chars-append (String.◌∷◌ c s) t = rw cons-append (omega (arith, chars-append s t))

ends_with_self : (s : String) → ends_with s s ≡ true
unfolding ends_with
ends_with_self String.[] = refl
ends_with_self (String.◌∷◌ c s) = ground (arith, eq_iff (String.◌∷◌ c s) (String.◌∷◌ c s))

pub ends_with-append : (s t : String) → ends_with (s <> t) t ≡ true
unfolding ends_with
ends_with-append String.[] t = rw nil-append (ends_with_self t)
ends_with-append (String.◌∷◌ c s) t = rw cons-append (ground (arith, ends_with-append s t))

drop_right_all : (n : ℕ) (s : String) → chars s ≤ n → drop_right n s ≡ ""
unfolding drop_right chars
drop_right_all n String.[] h = refl
drop_right_all n (String.◌∷◌ c s) h = ground arith

pub drop_right-append : (s t : String) → drop_right (chars t) (s <> t) ≡ s
unfolding drop_right
drop_right-append String.[] t = rw nil-append (drop_right_all (chars t) t (omega arith))
drop_right-append (String.◌∷◌ c s) t =
    rw cons-append (rw (chars-append s t) (ground (arith, drop_right-append s t)))
