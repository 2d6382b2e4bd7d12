-- ===== src/Prelude/Paths.antt =====
-- `Path::parent` on Unix, for paths without the segment `.`.
use Prim.Native.Char.{Char}
use Prim.Native.String.{String, ◌++◌ as append}
use mathlib.Core.Path.{◌≡◌, refl, sym, ap, ◌∙◌}
use mathlib.Core.Logic.{inl, inr}
use mathlib.Core.Bool.{Bool, true, false, not, ◌&&◌}
use mathlib.Core.Option.{Option, none, some}
use native.Mathlib.Omega.{arith}
use text.Mathlib.Text.{starts_with, ◌==◌ as str_eq}
use text.Mathlib.TextEquality.{starts_with_iff, eq_iff}
use text.Mathlib.TextLemmas.{
  append-nil, nil-append, cons-append, head-eq_of_cons-eq, nil≢cons, append-ne-nil_of_right_ne-nil,
}
use drop_app.Prelude.Tests.{if◌then◌else◌, Bool-cases}
use drop_app.Prelude.Texts.{join_path, ends_with, concat}

abbrev pub is_slash : Char → Bool
is_slash c = str_eq (String.◌∷◌ c "") "/"

abbrev pub no_slash : String → Bool
no_slash String.[] = true
no_slash (String.◌∷◌ c s) = not (is_slash c) && no_slash s

unfoldable pub trim_slashes : String → String
trim_slashes String.[] = ""
trim_slashes (String.◌∷◌ c s) =
    let rest = trim_slashes s in if is_slash c && str_eq rest "" then "" else String.◌∷◌ c rest

abbrev before_or : Char → Option String → Option String
before_or c none = if is_slash c then some "" else none
before_or c (some b) = some (String.◌∷◌ c b)

-- What stands before the last slash.
unfoldable pub before_slash : String → Option String
before_slash String.[] = none
before_slash (String.◌∷◌ c s) = before_or c (before_slash s)

abbrev pub root_or : String → String
root_or b = if str_eq b "" then "/" else b

abbrev parent_of : Option String → Option String
parent_of none = some ""
parent_of (some b) = some (root_or (trim_slashes b))

unfoldable pub parent : String → Option String
parent path =
    let trimmed = trim_slashes path in
    if str_eq trimmed "" then none else parent_of (before_slash trimmed)

pub cons_lem : (c : Char) (s : String) → append (String.◌∷◌ c "") s ≡ String.◌∷◌ c s
cons_lem c s = cons-append c "" s ∙ ap (String.◌∷◌ c) (nil-append s)

pub cons-ne-empty : (c : Char) (s : String) → str_eq (String.◌∷◌ c s) "" ≡ false
cons-ne-empty c s = elim (Bool-cases (str_eq (String.◌∷◌ c s) "")) [
  | inr other ↦ other
  | inl same ↦ absurd (nil≢cons (sym ((eq_iff (String.◌∷◌ c s) "").0 same)))
]

pub starts_slash :
    (c : Char) (s : String) → starts_with (String.◌∷◌ c s) "/" ≡ str_eq (String.◌∷◌ c "") "/"
starts_slash c s = elim (Bool-cases (starts_with (String.◌∷◌ c s) "/")) [
  | inl found ↦
      let (rest, eq) = (starts_with_iff (String.◌∷◌ c s) "/").0 found in
      let same_head = sym (head-eq_of_cons-eq (sym (cons_lem "/" rest) ∙ eq)) in
      found ∙ sym ((eq_iff (String.◌∷◌ c "") "/").1 (ap (λ a. String.◌∷◌ a "") same_head))
  | inr no_head ↦ elim (Bool-cases (str_eq (String.◌∷◌ c "") "/")) [
    | inr other ↦ no_head ∙ sym other
    | inl slash ↦
        let head = head-eq_of_cons-eq ((eq_iff (String.◌∷◌ c "") "/").0 slash) in
        (starts_with_iff (String.◌∷◌ c s) "/").1
          (s, cons_lem "/" s ∙ ap (λ a. String.◌∷◌ a s) (sym head))
        ∙ sym slash
  ]
]

pub starts_with-no_slash : (s : String) → no_slash s ≡ true → starts_with s "/" ≡ false
starts_with-no_slash String.[] h = refl
starts_with-no_slash (String.◌∷◌ c s) h = ground (arith, starts_slash c s)

append-ne-empty : (p t : String) → str_eq t "" ≡ false → str_eq (append p t) "" ≡ false
append-ne-empty p t h = elim (Bool-cases (str_eq (append p t) "")) [
  | inr other ↦ other
  | inl same ↦ absurd (
      append-ne-nil_of_right_ne-nil p (λ e. ground (arith, (eq_iff t "").1 e))
        ((eq_iff (append p t) "").0 same))
]

slash_lem :
    (c : Char) (s : String)
    → is_slash c ≡ true
    → str_eq s "" ≡ true
    → str_eq (String.◌∷◌ c s) "/" ≡ true
slash_lem c s h k =
    (eq_iff (String.◌∷◌ c s) "/").1
      (ap (String.◌∷◌ c) ((eq_iff s "").0 k) ∙ (eq_iff (String.◌∷◌ c "") "/").0 h)

trim_slashes-no_end : (s : String) → ends_with s "/" ≡ false → trim_slashes s ≡ s
unfolding ends_with trim_slashes
trim_slashes-no_end String.[] h = refl
trim_slashes-no_end (String.◌∷◌ c s) h = ground (arith, trim_slashes-no_end s, slash_lem c s)

trim_slashes-no_slash : (s : String) → no_slash s ≡ true → trim_slashes s ≡ s
unfolding trim_slashes
trim_slashes-no_slash String.[] h = refl
trim_slashes-no_slash (String.◌∷◌ c s) h = ground (arith, trim_slashes-no_slash s)

trim_slashes-append :
    (p t : String)
    → trim_slashes t ≡ t
    → str_eq t "" ≡ false
    → trim_slashes (append p t) ≡ append p t
unfolding trim_slashes
trim_slashes-append String.[] t h k = ap trim_slashes (nil-append t) ∙ h ∙ sym (nil-append t)
trim_slashes-append (String.◌∷◌ c p) t h k =
    ap trim_slashes (cons-append c p t)
    ∙ ground (arith, trim_slashes-append p t h k, append-ne-empty p t k)
    ∙ sym (cons-append c p t)

before_slash-no_slash : (s : String) → no_slash s ≡ true → before_slash s ≡ none
unfolding before_slash
before_slash-no_slash String.[] h = refl
before_slash-no_slash (String.◌∷◌ c s) h = ground (arith, before_slash-no_slash s)

pub before_slash-append :
    (p s : String) → no_slash s ≡ true → before_slash (append p (append "/" s)) ≡ some p
unfolding before_slash
before_slash-append String.[] s h =
    ap before_slash (nil-append (append "/" s) ∙ cons_lem "/" s)
    ∙ rw (before_slash-no_slash s h) refl
before_slash-append (String.◌∷◌ c p) s h =
    ap before_slash (cons-append c p (append "/" s)) ∙ rw (before_slash-append p s h) refl

slash-trim_slashes :
    (name : String)
    → str_eq name "" ≡ false
    → no_slash name ≡ true
    → trim_slashes (String.◌∷◌ "/" name) ≡ String.◌∷◌ "/" name
unfolding trim_slashes
slash-trim_slashes name n h = rw (trim_slashes-no_slash name h, n) refl

parent_lem :
    (base name : String)
    → str_eq base "" ≡ false
    → ends_with base "/" ≡ false
    → str_eq name "" ≡ false
    → no_slash name ≡ true
    → parent (append base (append "/" name)) ≡ some base
unfolding parent
parent_lem base name b e n h =
    let tail = cons_lem "/" name in
    let slashed : trim_slashes (String.◌∷◌ "/" name) ≡ String.◌∷◌ "/" name =
      slash-trim_slashes name n h in
    let right = append-ne-empty "/" name n in
    let trimmed =
      trim_slashes-append base (append "/" name) (ap trim_slashes tail ∙ slashed ∙ sym tail)
        right in
    rw
      (
        trimmed,
        append-ne-empty base (append "/" name) right,
        before_slash-append base name h,
        trim_slashes-no_end base e,
        b,
      )
      refl

-- The directory that a name was joined to.
pub parent-join_path :
    (base name : String)
    → str_eq base "" ≡ false
    → ends_with base "/" ≡ false
    → str_eq name "" ≡ false
    → no_slash name ≡ true
    → parent (join_path base name) ≡ some base
unfolding join_path concat
parent-join_path base name b e n h =
    ap parent (rw (starts_with-no_slash name h, b, e, append-nil name) refl)
    ∙ parent_lem base name b e n h
