-- ===== src/Base/Gives.antt =====
-- Computations with fuel that give a result.
use mathlib.Core.Path.{◌≡◌, refl}
use mathlib.Core.Bool.{Bool, true, false}
use mathlib.Core.Option
use mathlib.Core.Option.{Option, none, some}
use liderahenk_test_platform.Base.Tests.{if◌then◌else◌}

-- The computation gives a result, and the result satisfies `P`.
abbrev pub Gives {ℓ} : {A : Type ℓ} → (A → Type 0) → Option A → Type 0
Gives P none = ⊥
Gives P (some a) = P a

pub Gives-map {ℓ κ} :
    {A : Type ℓ} {B : Type κ} (P : A → Type 0) (Q : B → Type 0) (f : A → B) (o : Option A)
    → ((a : A) → P a → Q (f a))
    → Gives P o
    → Gives Q (Option.map f o)
Gives-map P Q f none h g = g
Gives-map P Q f (some a) h g = h a g

pub Gives-weaken {ℓ} :
    {A : Type ℓ} (P Q : A → Type 0) (o : Option A) → ((a : A) → P a → Q a) → Gives P o → Gives Q o
Gives-weaken P Q none h g = g
Gives-weaken P Q (some a) h g = h a g

pub Gives-if {ℓ} :
    {A : Type ℓ} (P : A → Type 0) (b : Bool) (x y : Option A)
    → (b ≡ true → Gives P x)
    → (b ≡ false → Gives P y)
    → Gives P (if b then x else y)
Gives-if P true x y f g = f refl
Gives-if P false x y f g = g refl
