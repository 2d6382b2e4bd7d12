-- ===== src/Prelude/Texts.antt =====
-- What the program uses of Rust's texts and of `Path::join`. Texts are sequences of characters.
use Prim.Native.Char.{code}
use Prim.Native.String.{String, ◌++◌ as append, count}
use text.Mathlib.Text.{◌==◌ as str_eq, starts_with}
use Prim.Native.Nat.{ℕ, zero, suc, ◌-◌}
use mathlib.Core.Bool.{Bool, ◌&&◌, ◌||◌}
use mathlib.Core.List.{List, [], ◌∷◌}
use drop_app.Prelude.Tests.{if◌then◌else◌, leb, ◌==◌}

-- The pieces of a `format!`, one after the other.
unfoldable pub concat : List String → String
concat [] = ""
concat (s ∷ ss) = append s (concat ss)

-- `slice::join`
unfoldable pub join : String → List String → String
join sep [] = ""
join sep (s ∷ []) = s
join sep (s ∷ t ∷ ss) = append s (append sep (join sep (t ∷ ss)))

unfoldable pub ends_with : String → String → Bool
ends_with String.[] t = str_eq String.[] t
ends_with (String.◌∷◌ c s) t = let rest = ends_with s t in str_eq (String.◌∷◌ c s) t || rest

-- `before` is the piece so far, `over` what is left to pass of the separator just found.
unfoldable pub split_from : String → ℕ → String → String → List String
split_from before over sep String.[] = before ∷ []
split_from before (suc n) sep (String.◌∷◌ c s) = split_from before n sep s
split_from before zero sep (String.◌∷◌ c s) =
    let found = split_from "" (count sep - 1) sep s in
    let on = split_from (append before (String.◌∷◌ c "")) zero sep s in
    if starts_with (String.◌∷◌ c s) sep then before ∷ found else on

-- `str::split` by a separator that is not empty.
unfoldable pub split : String → String → List String
split sep s = split_from "" zero sep s

-- `char::is_whitespace`
abbrev pub is_whitespace : ℕ → Bool
is_whitespace c =
    leb 9 c && leb c 13
    || c == 32
    || c == 133
    || c == 160
    || c == 5760
    || leb 8192 c && leb c 8202
    || c == 8232
    || c == 8233
    || c == 8239
    || c == 8287
    || c == 12288

unfoldable pub trim_start : String → String
trim_start String.[] = ""
trim_start (String.◌∷◌ c s) =
    let rest = trim_start s in if is_whitespace (code c) then rest else String.◌∷◌ c s

unfoldable pub trim_end : String → String
trim_end String.[] = ""
trim_end (String.◌∷◌ c s) =
    let rest = trim_end s in
    if is_whitespace (code c) && str_eq rest "" then "" else String.◌∷◌ c rest

unfoldable pub trim : String → String
trim s = trim_end (trim_start s)

-- `Path::join` on Unix: a path from the root replaces the one it is joined to.
unfoldable pub join_path : String → String → String
join_path base path =
    if starts_with path "/"
    then path
    else if str_eq base "" || ends_with base "/"
    then append base path
    else concat (base ∷ "/" ∷ path ∷ [])
