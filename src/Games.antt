-- ===== src/Games.antt =====
-- src-tauri/games: the state of each game in the database. Its downloads are in Downloads.
pub mod State
pub mod Library
pub mod Scan
