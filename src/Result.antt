-- ===== src/Result.antt =====
-- A call that may raise an exception, of which the program reads the text.
use liderahenk_test_platform.Base.{String, ◌≡◌, refl, Bool, true, false, if◌then◌else◌}

pub data Result {ℓ} (A : Type ℓ) : Type ℓ where
  ok : A → Result A
  err : String → Result A

infixl 10 ◌>>=◌
abbrev pub ◌>>=◌ {ℓ κ} : {A : Type ℓ} {B : Type κ} → Result A → (A → Result B) → Result B
ok a >>= f = f a
err e >>= f = err e

-- What a call promises of the value that it returns.
abbrev pub Returns {ℓ κ} : {A : Type ℓ} → (A → Type κ) → Result A → Type κ
Returns P (ok a) = P a
Returns P (err e) = Unit

pub Returns-bind {ℓ κ μ} :
    {A : Type ℓ} {B : Type κ} (P : B → Type μ) (m : Result A) (f : A → Result B)
    → ((a : A) → Returns P (f a))
    → Returns P (m >>= f)
Returns-bind P (ok a) f h = h a
Returns-bind P (err e) f h = tt

pub Returns-chain {ℓ κ} :
    {A : Type ℓ} {B : Type κ} (P : A → Type 0) (Q : B → Type 0) (m : Result A) (f : A → Result B)
    → Returns P m
    → ((a : A) → P a → Returns Q (f a))
    → Returns Q (m >>= f)
Returns-chain P Q (ok a) f p h = h a p
Returns-chain P Q (err e) f p h = tt

pub Returns-map {ℓ} :
    {A : Type ℓ} (P Q : A → Type 0) (m : Result A)
    → Returns P m
    → ((a : A) → P a → Q a)
    → Returns Q m
Returns-map P Q (ok a) p h = h a p
Returns-map P Q (err e) p h = tt

pub Returns-if {ℓ} :
    {A : Type ℓ} (P : A → Type 0) (b : Bool) (x y : Result A)
    → (b ≡ true → Returns P x)
    → (b ≡ false → Returns P y)
    → Returns P (if b then x else y)
Returns-if P true x y p q = p refl
Returns-if P false x y p q = q refl

-- `try` and `except`
abbrev pub on_result {ℓ κ} : {A : Type ℓ} {B : Type κ} → Result A → (A → B) → (String → B) → B
on_result (ok a) f g = f a
on_result (err e) f g = g e
