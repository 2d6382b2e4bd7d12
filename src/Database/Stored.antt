-- ===== src/Database/Stored.antt =====
-- What is kept of a database in its file: the fields of src-tauri/database/src/models.rs that are not
-- marked `#[serde(skip)]`. A field that is skipped is read as its default.
use drop_app.Prelude.{String, List, [], Option, none, Map, ◌≡◌, refl}
use drop_app.Database.Metadata.{DownloadableMetadata}
use drop_app.Database.Models.{
  GameVersion, GameDownloadStatus, Settings, DatabaseAuth, DatabaseCompatInfo, Database,
}

pub record StoredApplications : Type 0 where
  pub install_dirs : List String
  pub game_statuses : Map String GameDownloadStatus
  pub game_versions : Map String (Map String GameVersion)
  pub installed_game_version : Map String DownloadableMetadata

pub record StoredDatabase : Type 0 where
  pub settings : Settings
  pub auth : Option DatabaseAuth
  pub base_url : String
  pub applications : StoredApplications
  pub cache_dir : String
  pub compat_info : Option DatabaseCompatInfo

unfoldable pub stored : Database → StoredDatabase
stored d = record {
  settings = d.settings;
  auth = d.auth;
  base_url = d.base_url;
  applications = record {
    install_dirs = d.applications.install_dirs;
    game_statuses = d.applications.game_statuses;
    game_versions = d.applications.game_versions;
    installed_game_version = d.applications.installed_game_version;
  };
  cache_dir = d.cache_dir;
  compat_info = d.compat_info;
}

unfoldable pub restored : StoredDatabase → Database
restored s = record {
  settings = s.settings;
  auth = s.auth;
  base_url = s.base_url;
  applications = record {
    install_dirs = s.applications.install_dirs;
    game_statuses = s.applications.game_statuses;
    game_versions = s.applications.game_versions;
    installed_game_version = s.applications.installed_game_version;
    transient_statuses = [];
  };
  prev_database = none;
  cache_dir = s.cache_dir;
  compat_info = s.compat_info;
}

-- The database without its transient statuses and without the earlier database.
abbrev pub persisted : Database → Database
persisted d = record d {
  applications = record d.applications { transient_statuses = [] };
  prev_database = none;
}

pub restored-stored : (d : Database) → restored (stored d) ≡ persisted d
unfolding restored stored
restored-stored d = refl
