-- ===== src/Manager.antt =====
-- src-tauri/download_manager: the thread that works off the queue of downloads.
pub mod Signals
pub mod Flag
pub mod Rolling
pub mod Progress
pub mod Queue
pub mod Downloadable
pub mod State
pub mod Builder
pub mod Frontend
pub mod Thread
