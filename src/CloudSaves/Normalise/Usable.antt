-- ===== src/CloudSaves/Normalise/Usable.antt =====
-- src-tauri/cloud_saves/src/normalise.rs, `too_broad` and `usable`, which nothing calls. The tables of
-- lower case letters are an argument.
use Prim.Native.String.{String, ◌++◌ as append, len}
use text.Mathlib.Text.{◌==◌ as str_eq, starts_with, get?, find?}
use text.Mathlib.TextEquality.{starts_with_iff}
use drop_app.Prelude.{
  ◌≡◌, ◌≢◌, sym, Bool, true, false, not, ◌&&◌, ◌||◌, Option, none, some, is_some, List, [], ◌∷◌,
  All, arith,
}
use drop_app.Prelude.Texts.{concat}
use drop_app.CloudSaves.Placeholders
use drop_app.CloudSaves.Normalise.{RegexLibrary}

abbrev pub contains_text : String → String → Bool
contains_text s t = is_some (find? s t)

unfoldable pub any_of : (String → Bool) → List String → Bool
any_of f [] = false
any_of f (s ∷ ss) = f s || any_of f ss

abbrev pub all_placeholders : List String
all_placeholders =
    Placeholders.root ∷ Placeholders.game ∷ Placeholders.base ∷ Placeholders.home
    ∷ Placeholders.store_user_id ∷ Placeholders.os_user_name ∷ Placeholders.win_app_data
    ∷ Placeholders.win_local_app_data ∷ Placeholders.win_documents ∷ Placeholders.win_public
    ∷ Placeholders.win_program_data ∷ Placeholders.win_dir ∷ Placeholders.xdg_data
    ∷ Placeholders.xdg_config ∷ []

abbrev pub avoid_wildcards : List String
avoid_wildcards =
    Placeholders.root ∷ Placeholders.home ∷ Placeholders.win_app_data
    ∷ Placeholders.win_local_app_data ∷ Placeholders.win_documents ∷ Placeholders.win_public
    ∷ Placeholders.win_program_data ∷ Placeholders.win_dir ∷ Placeholders.xdg_data
    ∷ Placeholders.xdg_config ∷ []

abbrev pub below : String → String → String
below item name = concat (item ∷ "/" ∷ name ∷ [])

-- The paths that are there whether or not the game is installed.
abbrev pub shared_paths : List String
shared_paths =
    below Placeholders.base Placeholders.store_user_id
    ∷ below Placeholders.home "Documents"
    ∷ below Placeholders.home "Saved Games"
    ∷ below Placeholders.home "AppData"
    ∷ below Placeholders.home "AppData/Local"
    ∷ below Placeholders.home "AppData/Local/Packages"
    ∷ below Placeholders.home "AppData/LocalLow"
    ∷ below Placeholders.home "AppData/Roaming"
    ∷ below Placeholders.home "Documents/My Games"
    ∷ below Placeholders.home "Library/Application Support"
    ∷ below Placeholders.home "Library/Application Support/UserData"
    ∷ below Placeholders.home "Library/Preferences"
    ∷ below Placeholders.home ".renpy"
    ∷ below Placeholders.home ".renpy/persistent"
    ∷ below Placeholders.home "Library"
    ∷ below Placeholders.home "Library/RenPy"
    ∷ below Placeholders.home "Telltale Games"
    ∷ below Placeholders.root "config"
    ∷ below Placeholders.win_app_data "MMFApplications"
    ∷ below Placeholders.win_app_data "RenPy"
    ∷ below Placeholders.win_app_data "RenPy/persistent"
    ∷ below Placeholders.win_dir "win.ini"
    ∷ below Placeholders.win_dir "SysWOW64"
    ∷ below Placeholders.win_documents "My Games"
    ∷ below Placeholders.win_documents "Telltale Games"
    ∷ below Placeholders.xdg_config "unity3d"
    ∷ below Placeholders.xdg_data "unity3d"
    ∷ "C:/Program Files"
    ∷ "C:/Program Files (x86)"
    ∷ []

abbrev pub wildcard_below : String → String → Bool
wildcard_below path item =
    starts_with path (below item "*") || starts_with path (below item Placeholders.store_user_id)

-- `item` and `path` are in lower case.
abbrev pub is_shared : (String → String) → String → String → Bool
is_shared lowercase path item =
    str_eq path item
    || starts_with path (below item "*")
    || starts_with path (below item (lowercase Placeholders.store_user_id))
    || starts_with path (below item "savesdir")

-- A colon after the second byte; a path too short, or with a letter across it, has none there.
abbrev pub has_colon : Option String → Bool
has_colon none = false
has_colon (some rest) = contains_text rest ":"

module _ (regex : RegexLibrary) (lowercase : String → String) where
  unfoldable pub too_broad : String → Bool
  too_broad path =
      any_of (str_eq path) all_placeholders
      || any_of (wildcard_below path) avoid_wildcards
      || any_of (λ item. is_shared lowercase (lowercase path) (lowercase item)) shared_paths
      || regex.is_match "^[a-zA-Z]:$" path
      || has_colon (get? path 2 (len path))
      || str_eq path "/"
      || starts_with path "*"

  unfoldable pub usable : String → Bool
  usable path =
      not (str_eq path "")
      && not (contains_text path "{{")
      && not (starts_with path "./")
      && not (starts_with path "../")
      && not (too_broad path)
      && not (regex.is_match "(\\p{Cc}|\\p{Cf})" path)

any_of-All :
    (f : String → Bool) (ss : List String) → any_of f ss ≡ false → All (λ s. f s ≡ false) ss
unfolding any_of
any_of-All f [] h = tt
any_of-All f (s ∷ ss) h = (ground (arith, h), any_of-All f ss (ground (arith, h)))

starts_not : (path start rest : String) → starts_with path start ≡ false → path ≢ append start rest
starts_not path start rest h e = let found = (starts_with_iff path start).1 (rest, sym e) in cc

not_below :
    (path : String) (rest : String) (items : List String)
    → All (λ item. wildcard_below path item ≡ false) items
    → All (λ item. path ≢ append (below item "*") rest) items
not_below path rest [] h = tt
not_below path rest (item ∷ items) (h, hs) =
    (starts_not path (below item "*") rest (ground (arith, h)), not_below path rest items hs)

-- A usable path names none of the directories that stand for themselves, and takes in everything in
-- none of those that are shared by all programs.
pub usable_lem :
    (regex : RegexLibrary) (lowercase : String → String) (path : String)
    → usable regex lowercase path ≡ true
    → All (λ item. str_eq path item ≡ false) all_placeholders
      × ((rest : String) → All (λ item. path ≢ append (below item "*") rest) avoid_wildcards)
unfolding usable too_broad
usable_lem regex lowercase path h =
    let named : any_of (str_eq path) all_placeholders ≡ false = ground (arith, h) in
    let wild : any_of (wildcard_below path) avoid_wildcards ≡ false = ground (arith, h) in
    (
      any_of-All (str_eq path) all_placeholders named,
      λ rest.
          not_below path rest avoid_wildcards
            (any_of-All (wildcard_below path) avoid_wildcards wild),
    )
