-- ===== src/Prelude/Maps.antt =====
-- `std::collections::HashMap` as an association list. As in Rust, an insert under a key that is
-- there keeps the old key and replaces the value. Where the program iterates over a map, the order of
-- the list stands for the order of the iteration, which is unspecified.
use mathlib.Core.Path.{◌≡◌, refl}
use mathlib.Core.Bool.{Bool, true, false}
use mathlib.Core.List.{List, [], ◌∷◌}
use mathlib.Core.Option.{Option, none, some}
use native.Mathlib.Omega.{arith}
use drop_app.Prelude.Tests.{if◌then◌else◌}
use drop_app.Prelude.Keys.{Key, same}

abbrev pub Map {ℓ κ} : Type ℓ → Type κ → Type (ℓ ⊔ κ)
Map K V = List (K × V)

abbrev pub is_some {ℓ} : {A : Type ℓ} → Option A → Bool
is_some none = false
is_some (some a) = true

module _ {ℓ κ} {K : Type ℓ} {V : Type κ} ⦃key : Key K⦄ where
  unfoldable pub get : K → Map K V → Option V
  get k [] = none
  get k ((j, v) ∷ m) = if same j k then some v else get k m

  unfoldable pub insert : K → V → Map K V → Map K V
  insert k v [] = (k, v) ∷ []
  insert k v ((j, w) ∷ m) = if same j k then (j, v) ∷ m else (j, w) ∷ insert k v m

  -- A real map has one entry of a key at most; here all of them go.
  unfoldable pub remove : K → Map K V → Map K V
  remove k [] = []
  remove k ((j, w) ∷ m) = let rest = remove k m in if same j k then rest else (j, w) ∷ rest

  abbrev pub contains_key : K → Map K V → Bool
  contains_key k m = is_some (get k m)

  pub get-nil : (k : K) → get k [] ≡ none
  unfolding get
  get-nil k = refl

  pub get-congr : (j k : K) (m : Map K V) → same j k ≡ true → get j m ≡ get k m
  unfolding get
  get-congr j k [] h = refl
  get-congr j k ((i, w) ∷ m) h =
      ground (arith, get-congr j k m h, key.eq-congr j k i h, key.eq-comm i j, key.eq-comm i k)

  pub get-insert :
      (k j : K) (v : V) (m : Map K V)
      → get j (insert k v m) ≡ (if same k j then some v else get j m)
  unfolding get insert
  get-insert k j v [] = refl
  get-insert k j v ((i, w) ∷ m) = ground (
    arith,
    get-insert k j v m,
    key.eq-congr i k j,
    key.eq-congr k j i,
    key.eq-comm i k,
    key.eq-comm i j,
  )

  pub get-remove :
      (k j : K) (m : Map K V) → get j (remove k m) ≡ (if same k j then none else get j m)
  unfolding get remove
  get-remove k j [] = ground arith
  get-remove k j ((i, w) ∷ m) = ground (
    arith,
    get-remove k j m,
    key.eq-congr i k j,
    key.eq-congr k j i,
    key.eq-comm i k,
    key.eq-comm i j,
  )

  pub get-insert_self : (k : K) (v : V) (m : Map K V) → get k (insert k v m) ≡ some v
  get-insert_self k v m = rw (get-insert k k v m, key.eq-refl k)

  pub get-remove_self : (k : K) (m : Map K V) → get k (remove k m) ≡ none
  get-remove_self k m = rw (get-remove k k m, key.eq-refl k)

pub ruleset map_laws = (get-nil, get-insert, get-remove)
