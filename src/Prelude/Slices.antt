-- ===== src/Prelude/Slices.antt =====
-- Taking and dropping from the front of a list of bytes.
use Prim.Native.Nat.{ℕ, zero, suc, ◌+◌, ◌≤◌, ◌<◌}
use mathlib.Core.Path.{◌≡◌, refl, ap}
use mathlib.Core.List.{List, [], ◌∷◌, ◌++◌}
use native.Mathlib.Omega.{arith}
use drop_app.Prelude.Lists.{length, take, drop}

pub take_all : (xs : List ℕ) → take (length xs) xs ≡ xs
take_all [] = refl
take_all (x ∷ xs) = ap (λ r. x ∷ r) (take_all xs)

pub take-take : (a b : ℕ) (xs : List ℕ) → a ≤ length (take b xs) → take a (take b xs) ≡ take a xs
take-take zero b xs h = refl
take-take (suc a) zero xs h = ground arith
take-take (suc a) (suc b) [] h = refl
take-take (suc a) (suc b) (x ∷ xs) h = ap (λ r. x ∷ r) (take-take a b xs (omega (arith, h)))

pub take-nil : (n : ℕ) → take {A = ℕ} n [] ≡ []
take-nil zero = refl
take-nil (suc n) = refl

pub take_split :
    (m k l : ℕ) (xs : List ℕ)
    → length (take m xs) + k ≡ l
    → take l xs ≡ take m xs ++ take k (drop m xs)
take_split zero k l xs h = ap (λ n. take n xs) (omega (arith, h))
take_split (suc m) k l [] h = rw (take-nil l, take-nil k)
take_split (suc m) k zero (x ∷ xs) h = ground (arith, h)
take_split (suc m) k (suc l) (x ∷ xs) h = ap (λ r. x ∷ r) (take_split m k l xs (omega (arith, h)))

pub length-take-drop : (m : ℕ) (xs : List ℕ) → length (take m xs) + length (drop m xs) ≡ length xs
length-take-drop zero xs = omega arith
length-take-drop (suc m) [] = omega arith
length-take-drop (suc m) (x ∷ xs) = omega (arith, length-take-drop m xs)

pub length-take_le : (m : ℕ) (xs : List ℕ) → m ≤ length xs → length (take m xs) ≡ m
length-take_le zero xs h = refl
length-take_le (suc m) [] h = omega (arith, h)
length-take_le (suc m) (x ∷ xs) h = ap suc (length-take_le m xs (omega (arith, h)))

pub take_nonempty : (m : ℕ) (xs : List ℕ) → 0 < m → 0 < length xs → 0 < length (take m xs)
take_nonempty zero xs h g = omega (arith, h)
take_nonempty (suc m) [] h g = omega (arith, g)
take_nonempty (suc m) (x ∷ xs) h g = omega arith

pub drop-nil : (n : ℕ) → drop {A = ℕ} n [] ≡ []
drop-nil zero = refl
drop-nil (suc n) = refl

pub drop_split :
    (m k l : ℕ) (xs : List ℕ) → length (take m xs) + k ≡ l → drop l xs ≡ drop k (drop m xs)
drop_split zero k l xs h = ap (λ n. drop n xs) (omega (arith, h))
drop_split (suc m) k l [] h = rw (drop-nil l, drop-nil k)
drop_split (suc m) k zero (x ∷ xs) h = ground (arith, h)
drop_split (suc m) k (suc l) (x ∷ xs) h = drop_split m k l xs (omega (arith, h))

pub length-take_bound : (m : ℕ) (xs : List ℕ) → length (take m xs) ≤ m
length-take_bound zero xs = omega arith
length-take_bound (suc m) [] = omega arith
length-take_bound (suc m) (x ∷ xs) = omega (arith, length-take_bound m xs)
