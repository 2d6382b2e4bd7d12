-- ===== src/CloudSaves.antt =====
-- src-tauri/cloud_saves/src/metadata.rs, conditions.rs and error.rs: what a backup of a game's saved
-- files consists of.
pub mod Placeholders
pub mod Handlers
pub mod Resolver
pub mod Restore
pub mod Normalise
use drop_app.Prelude.{String, Option, List}
use drop_app.Database.Metadata.{Platform}
use drop_app.Database.Models.{GameVersion}

pub data BackupError : Type 0 where
  invalid_system not_found parse_error : BackupError

pub data Condition : Type 0 where
  os : Platform → Condition
  other : Condition

pub data DataType : Type 0 where
  registry file other : DataType

pub data Tag : Type 0 where
  config save other : Tag

pub record GameFile : Type 0 where
  pub path : String
  pub id : Option String
  pub data_type : DataType
  pub tags : List Tag
  pub conditions : List Condition

pub record CloudSaveMetadata : Type 0 where
  pub files : List GameFile
  pub game_version : GameVersion
  pub save_id : String
