-- ===== src/Commands.antt =====
-- src-tauri/src/games.rs: the commands by which the interface reads and changes games, over the types
-- of src-tauri/games/src/library.rs and error.rs. The state that they share is passed along.
pub mod Library
pub mod Refresh
pub mod Details
pub mod Session
pub mod Handshake
pub mod Startup
pub mod Settings
pub mod Collections
pub mod Connect
pub mod Autostart
pub mod Lifecycle
pub mod Downloads
pub mod Consequences
use drop_app.Prelude.{String, Map, List}
use drop_app.Games.Library.{Client}
use drop_app.Remote.Cache.{Files}

pub record Game : Type 0 where
  pub id : String
  pub m_name : String
  pub m_short_description : String
  pub m_description : String
  pub m_icon_object_id : String
  pub m_banner_object_id : String
  pub m_cover_object_id : String
  pub m_image_library_object_ids : List String
  pub m_image_carousel_object_ids : List String

pub data LibraryError : Type 0 where
  meta_not_found : String → LibraryError
  version_not_found : String → LibraryError

-- The games of `AppState`, the database and the interface, and the files of the cache,
-- which hold what the encoding gives.
pub record App (Bytes : Type 0) : Type 0 where
  pub games : Map String Game
  pub client : Client
  pub files : Files Bytes
