-- ===== src/Database.antt =====
-- src-tauri/database: the data that the client keeps on disk and in memory.
pub mod Metadata
pub mod Models
pub mod Old
pub mod Migration
pub mod Stored
pub mod Interface
