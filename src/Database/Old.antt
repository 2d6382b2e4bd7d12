-- ===== src/Database/Old.antt =====
-- src-tauri/database/src/models.rs: what versions 1 and 2 of the database held where they differ from
-- the current one.
use drop_app.Prelude.{String, Option, List, Map}
use drop_app.Database.Metadata.{DownloadableMetadata}
use drop_app.Database.Models.{
  GameVersion, Settings, DatabaseAuth, DatabaseCompatInfo, ApplicationTransientStatus,
}

-- v1::GameDownloadStatus, which has no partial installs
pub data GameDownloadStatus : Type 0 where
  remote : GameDownloadStatus
  setup_required : String → String → GameDownloadStatus
  installed : String → String → GameDownloadStatus

-- v1::DatabaseApplications
pub record DatabaseApplications : Type 0 where
  pub install_dirs : List String
  pub game_statuses : Map String GameDownloadStatus
  pub game_versions : Map String (Map String GameVersion)
  pub installed_game_version : Map String DownloadableMetadata
  pub transient_statuses : Map DownloadableMetadata ApplicationTransientStatus

-- v1::Database
pub record DatabaseV1 : Type 0 where
  pub settings : Settings
  pub auth : Option DatabaseAuth
  pub base_url : String
  pub applications : DatabaseApplications
  pub prev_database : Option String
  pub cache_dir : String

-- v2::Database
pub record DatabaseV2 : Type 0 where
  pub settings : Settings
  pub auth : Option DatabaseAuth
  pub base_url : String
  pub applications : DatabaseApplications
  pub prev_database : Option String
  pub cache_dir : String
  pub compat_info : Option DatabaseCompatInfo
