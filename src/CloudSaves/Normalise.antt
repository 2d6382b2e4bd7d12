-- ===== src/CloudSaves/Normalise.antt =====
-- src-tauri/cloud_saves/src/normalise.rs: the normal form of a path of a save, and which paths are
-- too broad to be backed up. The library of regular expressions is a parameter, a record of what is
-- called of it.
pub mod Rules
pub mod Usable
use Prim.Native.String.{String, ◌++◌ as append}
use text.Mathlib.Text.{◌==◌ as str_eq, starts_with}
use drop_app.Prelude.{◌≡◌, Bool, false, ◌&&◌, ◌||◌, List, [], ◌∷◌, ◌++◌, if◌then◌else◌}
use drop_app.Prelude.Texts.{split, join, trim, concat}
use drop_app.Database.Metadata.{Platform, windows, linux, mac_os}
use drop_app.CloudSaves.Placeholders

pub record RegexLibrary : Type 0 where
  pub replace_all : String → String → String → String
  pub is_match : String → String → Bool

-- What is relied on: a text without a match is left alone.
abbrev pub LeavesAlone : RegexLibrary → String → Type 0
LeavesAlone regex pattern =
    (to text : String)
    → regex.is_match pattern text ≡ false
    → regex.replace_all pattern to text ≡ text

-- `str::trim_end_matches(['/', '\\'])`
unfoldable pub trim_end_slashes : String → String
trim_end_slashes String.[] = ""
trim_end_slashes (String.◌∷◌ c s) =
    let rest = trim_end_slashes s in
    if (str_eq (String.◌∷◌ c "") "/" || str_eq (String.◌∷◌ c "") "\\") && str_eq rest ""
    then ""
    else String.◌∷◌ c rest

-- `str::replace`, for a text to look for that is not empty.
abbrev pub replace : String → String → String → String
replace from to text = join to (split from text)

-- `str::replacen('~', to, 1)`
unfoldable pub replace_tilde : String → String → String
replace_tilde to String.[] = ""
replace_tilde to (String.◌∷◌ c s) =
    let rest = replace_tilde to s in
    if str_eq (String.◌∷◌ c "") "~" then append to s else String.◌∷◌ c rest

abbrev pub expand_home : String → String
expand_home path =
    if str_eq path "~" || starts_with path "~/" then replace_tilde Placeholders.home path else path

-- A pattern, and what its matches are replaced by.
abbrev pub Rule : Type 0
Rule = String × String

abbrev pub slash_rules : List Rule
slash_rules =
    ("/{2,}", "/")
    ∷ ("([^/*])\\*{2,}", "${1}*")
    ∷ ("\\*{2,}([^/*])", "*${1}")
    ∷ ("(/\\*)+$", "")
    ∷ ("(/\\.)$", "")
    ∷ ("(/\\./)", "/")
    ∷ ("(/\\s+/)", "/")
    ∷ []

abbrev pub app_data_rules : List Rule
app_data_rules =
    ("(?i)%appdata%", Placeholders.win_app_data)
    ∷ ("(?i)%userprofile%/AppData/Roaming", Placeholders.win_app_data)
    ∷ ("(?i)%localappdata%", Placeholders.win_local_app_data)
    ∷ ("(?i)%userprofile%/AppData/Local/", concat (Placeholders.win_local_app_data ∷ "/" ∷ []))
    ∷ []

abbrev pub user_profile : String
user_profile = "(?i)%userprofile%"

abbrev pub documents : String
documents = "(?i)%userprofile%/Documents"

abbrev pub rules : List Rule
rules =
    slash_rules
    ++ (app_data_rules
        ++ (user_profile, Placeholders.home) ∷ (documents, Placeholders.win_documents) ∷ [])

abbrev pub documents_2 : String
documents_2 = "(?i)<home>/Documents"

-- The rules of a table, one after the other.
unfoldable pub apply : RegexLibrary → List Rule → String → String
apply regex [] path = path
apply regex ((pattern, to) ∷ rs) path = apply regex rs (regex.replace_all pattern to path)

abbrev pub windows_rules : Platform → List Rule
windows_rules windows = (documents_2, Placeholders.win_documents) ∷ []
windows_rules linux = []
windows_rules mac_os = []

abbrev pub replace_ids : String → String
replace_ids path =
    replace "{Steam3AccountID}" Placeholders.store_user_id
      (replace "{64BitSteamID}" Placeholders.store_user_id path)

abbrev pub trimmed : String → String
trimmed path = expand_home (replace "\\" "/" (trim_end_slashes (trim path)))

abbrev pub normalize_by : RegexLibrary → List Rule → String → Platform → String
normalize_by regex rs path os =
    replace_ids (apply regex (windows_rules os) (apply regex rs (trimmed path)))

abbrev pub normalize : RegexLibrary → String → Platform → String
normalize regex = normalize_by regex rules
