-- ===== src/Database/Models.antt =====
-- src-tauri/database/src/models.rs: the current version of the stored data (`data::Database` is
-- `v3::Database`). Paths and URLs are texts.
use drop_app.Prelude.{ℕ, Bool, false, String, Option, none, List, [], ◌∷◌, Map}
use drop_app.Database.Metadata.{Platform, DownloadableMetadata}

pub record GameVersion : Type 0 where
  pub game_id : String
  pub version_name : String
  pub platform : Platform
  pub launch_command : String
  pub launch_args : List String
  pub launch_command_template : String
  pub setup_command : String
  pub setup_args : List String
  pub setup_command_template : String
  pub only_setup : Bool
  pub version_index : ℕ
  pub delta : Bool
  pub umu_id_override : Option String

pub record Settings : Type 0 where
  pub autostart : Bool
  pub max_download_threads : ℕ
  pub force_offline : Bool

abbrev pub default_settings : Settings
default_settings = record { autostart = false; max_download_threads = 4; force_offline = false }

pub record DatabaseAuth : Type 0 where
  pub private_key : String
  pub cert : String
  pub client_id : String
  pub web_token : Option String

-- version_name, install_dir
pub data GameDownloadStatus : Type 0 where
  remote : GameDownloadStatus
  setup_required : String → String → GameDownloadStatus
  installed : String → String → GameDownloadStatus
  partially_installed : String → String → GameDownloadStatus

pub data ApplicationTransientStatus : Type 0 where
  queued : String → ApplicationTransientStatus
  downloading : String → ApplicationTransientStatus
  uninstalling : ApplicationTransientStatus
  updating : String → ApplicationTransientStatus
  validating : String → ApplicationTransientStatus
  running : ApplicationTransientStatus

pub record DatabaseApplications : Type 0 where
  pub install_dirs : List String
  pub game_statuses : Map String GameDownloadStatus
  pub game_versions : Map String (Map String GameVersion)
  pub installed_game_version : Map String DownloadableMetadata
  pub transient_statuses : Map DownloadableMetadata ApplicationTransientStatus

pub record DatabaseCompatInfo : Type 0 where
  pub umu_installed : Bool

pub record Database : Type 0 where
  pub settings : Settings
  pub auth : Option DatabaseAuth
  pub base_url : String
  pub applications : DatabaseApplications
  pub prev_database : Option String
  pub cache_dir : String
  pub compat_info : Option DatabaseCompatInfo

unfoldable pub new_database : String → Option String → String → Database
new_database games_base_dir prev_database cache_dir = record {
  settings = default_settings;
  auth = none;
  base_url = "";
  applications = record {
    install_dirs = games_base_dir ∷ [];
    game_statuses = [];
    game_versions = [];
    installed_game_version = [];
    transient_statuses = [];
  };
  prev_database = prev_database;
  cache_dir = cache_dir;
  compat_info = none;
}
