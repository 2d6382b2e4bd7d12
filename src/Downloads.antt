-- ===== src/Downloads.antt =====
-- src-tauri/games/src/downloads: a game's files, cut into chunks, planned into buckets and fetched.
pub mod Manifest
pub mod DropData
pub mod Buckets
pub mod Agent
pub mod Validate
pub mod Pipeline
