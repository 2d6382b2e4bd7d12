-- ===== src/Prelude/Panics.antt =====
-- Code that may panic and does not fail otherwise: `none` is the panic.
use drop_app.Prelude.Maps.{is_some}
use mathlib.Core.Path.{◌≡◌, refl}
use mathlib.Core.Bool.{Bool, true, false}
use mathlib.Core.Option.{Option, none, some}

infixl 5 ◌>>=◌
abbrev pub ◌>>=◌ {ℓ κ} : {A : Type ℓ} {B : Type κ} → Option A → (A → Option B) → Option B
none >>= f = none
some a >>= f = f a

-- `assert!`, and an `expect` on what is not used
abbrev pub ensure : Bool → Option (Unit {0})
ensure true = some tt
ensure false = none

-- When the first part does not panic, the whole does what the second part does.
pub >>=-is_some {ℓ κ} :
    {A : Type ℓ} {B : Type κ} (m : Option A) (f : A → Option B)
    → is_some m ≡ true
    → ((a : A) → m ≡ some a → is_some (f a) ≡ true)
    → is_some (m >>= f) ≡ true
>>=-is_some none f h k = h
>>=-is_some (some a) f h k = k a refl

pub >>=-eq-some {ℓ κ} :
    {A : Type ℓ} {B : Type κ} (m : Option A) (f : A → Option B) {b : B}
    → (m >>= f) ≡ some b
    → (a : A) × (m ≡ some a) × (f a ≡ some b)
>>=-eq-some none f h = cc
>>=-eq-some (some a) f h = (a, refl, h)
