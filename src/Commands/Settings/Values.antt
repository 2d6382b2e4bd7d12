-- ===== src/Commands/Settings/Values.antt =====
-- src-tauri/src/settings.rs and src-tauri/database/src/debug.rs: reading and updating the settings.
-- How a structure is turned into a JSON object and back is a parameter.
use drop_app.Prelude.{
  String, ◌≡◌, refl, ◌∙◌, ap, false, Option, none, some, List, [], ◌∷◌, Map, insert, contains,
  string_key, All,
}
use drop_app.Database.Models.{Settings, Database}

pub record SettingsJson {ℓ} (Value : Type ℓ) : Type ℓ where
  pub to_value : Settings → Map String Value
  pub from_value : Map String Value → Option Settings

-- Rust's `value["key"] = …` on an object, for each entry of another.
unfoldable pub set_values {ℓ} :
    {Value : Type ℓ} → Map String Value → Map String Value → Map String Value
set_values [] current = current
set_values ((key, value) ∷ values) current = set_values values (insert key value current)

abbrev pub or_same : Option Settings → Database → Database
or_same none db = db
or_same (some s) db = record db { settings = s }

-- `none`: the new settings are not an object.
unfoldable pub update_settings {ℓ} :
    {Value : Type ℓ} → SettingsJson Value → Option (Map String Value) → Database → Database
update_settings json none db = db
update_settings json (some values) db =
    or_same (json.from_value (set_values values (json.to_value db.settings))) db

abbrev pub fetch_settings : Database → Settings
fetch_settings db = db.settings

pub record SystemData : Type 0 where
  pub client_id : String
  pub base_url : String
  pub data_dir : String
  pub log_level : String

abbrev pub log_level_or_info : Option String → String
log_level_or_info none = "info"
log_level_or_info (some level) = level

-- The client's id is taken out of the credentials without a look.
abbrev pub fetch_system_data : String → Option String → Database → Option SystemData
fetch_system_data data_root_dir rust_log db = elim db.auth [
  | none ↦ none
  | some auth ↦ some (record {
    client_id = auth.client_id;
    base_url = db.base_url;
    data_dir = data_root_dir;
    log_level = log_level_or_info rust_log;
  })
]

module _ {ℓ} {Value : Type ℓ} (json : SettingsJson Value) (known : List String) where
  -- Keys that are not known are not read.
  abbrev pub IgnoresUnknown : Type ℓ
  IgnoresUnknown =
      (key : String) (value : Value) (m : Map String Value)
      → contains known key ≡ false
      → json.from_value (insert key value m) ≡ json.from_value m

  set_values_unknown :
      (values m : Map String Value)
      → IgnoresUnknown
      → All (λ entry. contains known entry.0 ≡ false) values
      → json.from_value (set_values values m) ≡ json.from_value m
  unfolding set_values
  set_values_unknown [] m ignores u = refl
  set_values_unknown ((key, value) ∷ values) m ignores (u, us) =
      set_values_unknown values (insert key value m) ignores us ∙ ignores key value m u

  -- Values of unknown settings change nothing, when settings are read back as they were written and
  -- keys that are not known are not read.
  pub update_settings_unknown :
      (values : Map String Value) (db : Database)
      → ((s : Settings) → json.from_value (json.to_value s) ≡ some s)
      → IgnoresUnknown
      → All (λ entry. contains known entry.0 ≡ false) values
      → update_settings json (some values) db ≡ db
  unfolding update_settings
  update_settings_unknown values db reads ignores u =
      ap (λ o. or_same o db)
        (set_values_unknown values (json.to_value db.settings) ignores u ∙ reads db.settings)
