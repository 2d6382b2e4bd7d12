-- ===== src/Prelude/Keys.antt =====
-- The equality that a type of keys implements. It need not be the equality of all fields, so what is
-- known of it is only that it is an equivalence.
use Prim.Native.String.{String}
use mathlib.Core.Path.{◌≡◌, refl, ap}
use mathlib.Core.Bool.{Bool, true, false, ◌||◌}
use mathlib.Core.List.{List, [], ◌∷◌, ◌++◌}
use native.Mathlib.Omega.{arith}
use text.Mathlib.Text.{◌==◌ as str_eq}
use text.Mathlib.TextEquality.{eq_iff}
use text.Mathlib.TextPositions.{eq_refl}
use drop_app.Prelude.Tests.{if◌then◌else◌}

pub record Key {ℓ} (K : Type ℓ) : Type ℓ where
  pub eq : K → K → Bool
  pub eq-refl : (a : K) → eq a a ≡ true
  pub eq-comm : (a b : K) → eq a b ≡ eq b a
  pub eq-congr : (a b c : K) → eq a b ≡ true → eq a c ≡ eq b c

pub string_eq_comm : (s t : String) → str_eq s t ≡ str_eq t s
string_eq_comm s t = ground (arith, eq_iff s t, eq_iff t s)

pub string_eq-congr : (s t u : String) → str_eq s t ≡ true → str_eq s u ≡ str_eq t u
string_eq-congr s t u h = ap (λ x. str_eq x u) ((eq_iff s t).0 h)

instance abbrev pub string_key : Key String
string_key = record {
  eq = str_eq;
  eq-refl = eq_refl;
  eq-comm = string_eq_comm;
  eq-congr = string_eq-congr;
}

module _ {ℓ} {K : Type ℓ} ⦃key : Key K⦄ where
  abbrev pub same : K → K → Bool
  same = key.eq

  -- `VecDeque::contains` and `slice::contains`.
  unfoldable pub contains : List K → K → Bool
  contains [] k = false
  contains (j ∷ js) k = same j k || contains js k

  -- No two elements are the same key.
  abbrev pub Distinct : List K → Type 0
  Distinct [] = Unit
  Distinct (j ∷ js) = (contains js j ≡ false) × Distinct js

  pub contains-append :
      (js ks : List K) (k : K) → contains (js ++ ks) k ≡ (contains js k || contains ks k)
  unfolding contains
  contains-append [] ks k = refl
  contains-append (j ∷ js) ks k = ground (arith, contains-append js ks k)

  pub contains-congr : (js : List K) (k l : K) → same k l ≡ true → contains js k ≡ contains js l
  unfolding contains
  contains-congr [] k l h = refl
  contains-congr (j ∷ js) k l h =
      ground
        (arith, contains-congr js k l h, key.eq-congr k l j h, key.eq-comm j k, key.eq-comm j l)

  -- The list without the first element that is the key.
  unfoldable pub erase : K → List K → List K
  erase k [] = []
  erase k (j ∷ js) = if same j k then js else j ∷ erase k js

  pub contains-erase :
      (k l : K) (js : List K)
      → Distinct js
      → contains (erase k js) l ≡ (if same k l then false else contains js l)
  unfolding contains erase
  contains-erase k l [] d = ground arith
  contains-erase k l (j ∷ js) d = ground (
    arith,
    contains-erase k l js d.1,
    key.eq-congr j k l,
    key.eq-congr k l j,
    key.eq-comm j l,
    key.eq-comm j k,
    contains-congr js j l,
  )

  pub erase-Distinct : (k : K) (js : List K) → Distinct js → Distinct (erase k js)
  unfolding contains erase
  erase-Distinct k [] d = tt
  erase-Distinct k (j ∷ js) d = ground (arith, erase-Distinct k js d.1, contains-erase k j js d.1)

  pub append-Distinct :
      (js : List K) (k : K) → Distinct js → contains js k ≡ false → Distinct (js ++ k ∷ [])
  unfolding contains
  append-Distinct [] k d h = (refl, tt)
  append-Distinct (j ∷ js) k d h =
      ground (arith, append-Distinct js k d.1, contains-append js (k ∷ []) j, key.eq-comm k j)

  pub erase_absent : (k : K) (js : List K) → contains js k ≡ false → erase k js ≡ js
  unfolding contains erase
  erase_absent k [] h = refl
  erase_absent k (j ∷ js) h = ground (arith, erase_absent k js)
