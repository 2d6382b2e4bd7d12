-- ===== src/Manager/Rolling.antt =====
-- src-tauri/download_manager/src/util/rolling_progress_updates.rs: the average of the last speeds.
use drop_app.Prelude.{
  ℕ, zero, suc, ◌+◌, ◌*◌, ◌/◌, ◌%◌, ◌≤◌, ◌<◌, ◌≡◌, refl, Option, none, some, List, [], ◌∷◌, arith,
  set, take, length, length-set, length-replicate, replicate, sum_by, All,
}
use native.Mathlib.Decide.{dec_lt}
use native.Mathlib.Nat.{mod-eq_of_lt, le-div_iff_mul-le, div-le_of_le-mul}
use drop_app.Prelude.Usize.{add_usize, add_usize_exact, usize_mod}

-- The window has a fixed number of slots, its length.
pub record RollingProgressWindow : Type 0 where
  pub window : List ℕ
  pub current : ℕ

unfoldable pub new : ℕ → RollingProgressWindow
new slots = record { window = replicate slots 0; current = 0 }

unfoldable pub update : ℕ → RollingProgressWindow → RollingProgressWindow
update kilobytes_per_second r = record {
  window = set r.window (r.current % length r.window) kilobytes_per_second;
  current = add_usize r.current 1;
}

abbrev pub sum : List ℕ → ℕ
sum = sum_by (λ n. n)

abbrev pub divide : ℕ → ℕ → Option ℕ
divide n zero = none
divide n (suc m) = some (n / suc m)

-- The slots of an index below `current`, added up and divided by their number; the sum wraps, and a
-- division by zero panics.
unfoldable pub get_average : RollingProgressWindow → Option ℕ
get_average r = let valid = take r.current r.window in divide (sum valid % usize_mod) (length valid)

unfoldable pub reset : RollingProgressWindow → RollingProgressWindow
reset r = record { window = replicate (length r.window) 0; current = 0 }

-- The slots that `get_average` reads hold speeds between the two bounds.
pub record IsWithin (lo hi : ℕ) (r : RollingProgressWindow) : Type 0 where
  pub slots : 0 < length r.window
  pub no_wrap : r.current < usize_mod
  pub valid : All (λ v. (lo ≤ v) × (v ≤ hi)) (take r.current r.window)

take-set_next {ℓ} :
    (P : ℕ → Type ℓ) (c : ℕ) (xs : List ℕ) (v : ℕ)
    → All P (take c xs)
    → P v
    → All P (take (suc c) (set xs c v))
take-set_next P c [] v h p = tt
take-set_next P zero (x ∷ xs) v h p = (p, tt)
take-set_next P (suc c) (x ∷ xs) v h p = (h.0, take-set_next P c xs v h.1 p)

take-set-All {ℓ} :
    (P : ℕ → Type ℓ) (c i : ℕ) (xs : List ℕ) (v : ℕ)
    → length xs ≤ c
    → All P (take c xs)
    → P v
    → All P (take (suc c) (set xs i v))
take-set-All P c i [] v l h p = tt
take-set-All P zero i (x ∷ xs) v l h p = absurd (omega arith)
take-set-All P (suc c) zero (x ∷ xs) v l h p = (p, grow c xs (omega arith) h.1)
  where
    grow : (c : ℕ) (xs : List ℕ) → length xs ≤ c → All P (take c xs) → All P (take (suc c) xs)
    grow c [] l h = tt
    grow zero (x ∷ xs) l h = absurd (omega arith)
    grow (suc c) (x ∷ xs) l h = (h.0, grow c xs (omega arith) h.1)
take-set-All P (suc c) (suc i) (x ∷ xs) v l h p = (h.0, take-set-All P c i xs v (omega arith) h.1 p)

update-take :
    (lo hi v : ℕ) (r : RollingProgressWindow)
    → IsWithin lo hi r
    → lo ≤ v
    → v ≤ hi
    → All
        (λ (x : ℕ). (lo ≤ x) × (x ≤ hi))
        (take (suc r.current) (set r.window (r.current % length r.window) v))
update-take lo hi v r h a b = elim (dec_lt r.current (length r.window)) [
  | yes inside ↦
      rw (mod-eq_of_lt inside)
        (take-set_next (λ (x : ℕ). (lo ≤ x) × (x ≤ hi)) r.current r.window v h.valid (a, b))
  | no wrapped ↦
      take-set-All (λ (x : ℕ). (lo ≤ x) × (x ≤ hi)) r.current (r.current % length r.window) r.window
        v (omega arith) h.valid (a, b)
]

pub update-IsWithin :
    (lo hi v : ℕ) (r : RollingProgressWindow)
    → r.current + 1 < usize_mod
    → IsWithin lo hi r
    → lo ≤ v
    → v ≤ hi
    → IsWithin lo hi (update v r)
unfolding update
update-IsWithin lo hi v r room h a b =
    let next : add_usize r.current 1 ≡ suc r.current = omega (arith, add_usize_exact r.current 1) in
    record {
      slots = omega (arith, h.slots, length-set r.window (r.current % length r.window) v);
      no_wrap = omega arith;
      valid = rw next (update-take lo hi v r h a b);
    }

sum_bounds :
    (lo hi : ℕ) (xs : List ℕ)
    → All (λ v. (lo ≤ v) × (v ≤ hi)) xs
    → (lo * length xs ≤ sum xs) × (sum xs ≤ hi * length xs)
sum_bounds lo hi [] h = omega arith
sum_bounds lo hi (x ∷ xs) h = omega (arith, h.0.0, h.0.1, sum_bounds lo hi xs h.1)

divide_bounds :
    (lo hi s n : ℕ)
    → 0 < n
    → lo * n ≤ s
    → s ≤ hi * n
    → (a : ℕ) × (divide s n ≡ some a) × (lo ≤ a) × (a ≤ hi)
divide_bounds lo hi s zero h a b = absurd (omega arith)
divide_bounds lo hi s (suc n) h a b =
    (s / suc n, refl, (le-div_iff_mul-le h).1 a, div-le_of_le-mul (suc n) (omega arith))

some_valid : (c : ℕ) (xs : List ℕ) → 0 < c → 0 < length xs → 0 < length (take c xs)
some_valid zero xs h k = absurd (omega arith)
some_valid (suc c) [] h k = absurd (omega arith)
some_valid (suc c) (x ∷ xs) h k = omega arith

update-current :
    (v : ℕ) (r : RollingProgressWindow) → r.current + 1 < usize_mod → 0 < (update v r).current
unfolding update
update-current v r h = omega (arith, add_usize_exact r.current 1)

valid_after :
    (lo hi v : ℕ) (r : RollingProgressWindow)
    → r.current + 1 < usize_mod
    → IsWithin lo hi (update v r)
    → 0 < length (take (update v r).current (update v r).window)
valid_after lo hi v r room within =
    some_valid (update v r).current (update v r).window (update-current v r room) within.slots

divide-some : (s n : ℕ) → 0 < n → (a : ℕ) × (divide s n ≡ some a)
divide-some s zero h = absurd (omega arith)
divide-some s (suc n) h = (s / suc n, refl)

-- While the count of updates does not wrap, the average exists after an update.
pub get_average-update :
    (lo hi v : ℕ) (r : RollingProgressWindow)
    → r.current + 1 < usize_mod
    → IsWithin lo hi r
    → lo ≤ v
    → v ≤ hi
    → (a : ℕ) × (get_average (update v r) ≡ some a)
unfolding get_average
get_average-update lo hi v r room h a b =
    divide-some _ _ (valid_after lo hi v r room (update-IsWithin lo hi v r room h a b))

-- If the speeds cannot add up to a sum that wraps either, the average lies between any bounds that they
-- kept to: the window never reports a speed that was not between two it was given.
pub get_average_bounds :
    (lo hi v : ℕ) (r : RollingProgressWindow)
    → r.current + 1 < usize_mod
    → IsWithin lo hi r
    → lo ≤ v
    → v ≤ hi
    → hi * length (take (update v r).current (update v r).window) < usize_mod
    → (a : ℕ) × (get_average (update v r) ≡ some a) × (lo ≤ a) × (a ≤ hi)
unfolding get_average
get_average_bounds lo hi v r room h a b fits =
    let r' = update v r in
    let within = update-IsWithin lo hi v r room h a b in
    let valid = take r'.current r'.window in
    let (below, above) = sum_bounds lo hi valid within.valid in
    let exact : sum valid % usize_mod ≡ sum valid = mod-eq_of_lt (omega (arith, above, fits)) in
    divide_bounds lo hi (sum valid % usize_mod) (length valid) (valid_after lo hi v r room within)
      (omega (arith, exact, below)) (omega (arith, exact, above))

-- A window with slots, made or reset, holds no speed yet, so any bounds do.
pub reset-IsWithin :
    (lo hi : ℕ) (r : RollingProgressWindow) → 0 < length r.window → IsWithin lo hi (reset r)
unfolding reset
reset-IsWithin lo hi r h = record {
  slots = omega (arith, length-replicate {A = ℕ} (length r.window) 0);
  no_wrap = omega arith;
  valid = tt;
}
