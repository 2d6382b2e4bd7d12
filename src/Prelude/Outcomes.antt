-- ===== src/Prelude/Outcomes.antt =====
-- Code that may return an error or panic.
use mathlib.Core.Path.{◌≡◌, refl, Path}
use mathlib.Core.Option.{Option, none, some}

pub data Outcome {ℓ κ} (E : Type ℓ) (A : Type κ) : Type (ℓ ⊔ κ) where
  ok : A → Outcome E A
  err : E → Outcome E A
  panic : Outcome E A

infixl 5 ◌>>=◌
abbrev pub ◌>>=◌ {ℓ κ μ} :
    {E : Type ℓ} {A : Type κ} {B : Type μ} → Outcome E A → (A → Outcome E B) → Outcome E B
ok a >>= f = f a
err e >>= f = err e
panic >>= f = panic

-- `ok_or`
abbrev pub ok_or {ℓ κ} : {E : Type ℓ} {A : Type κ} → Option A → E → Outcome E A
ok_or none e = err e
ok_or (some a) e = ok a

-- `unwrap` and `expect` on an option
abbrev pub unwrap {ℓ κ} : {E : Type ℓ} {A : Type κ} → Option A → Outcome E A
unwrap none = panic
unwrap (some a) = ok a

-- A chain that returns has returned at each step.
module _ {ℓ κ μ} {E : Type ℓ} {A : Type κ} {B : Type μ} where
  pub >>=-eq-ok :
      (o : Outcome E A) (next : A → Outcome E B) {last : B}
      → (o >>= next) ≡ ok last
      → (first : A) × (o ≡ ok first) × (next first ≡ ok last)
  >>=-eq-ok panic next ends = cc
  >>=-eq-ok (err e) next ends = cc
  >>=-eq-ok (ok first) next ends = (first, refl, ends)

pub ok-injective {ℓ κ} :
    {E : Type ℓ} {A : Type κ} {a b : A} → Path (Outcome E A) (ok a) (ok b) → a ≡ b
ok-injective h = cc
