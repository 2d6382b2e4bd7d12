-- ===== src/Manager/Signals.antt =====
-- src-tauri/download_manager/src/download_manager_frontend.rs and error.rs: what the manager is sent,
-- and the states that it and an agent report.
use drop_app.Prelude.{ℕ, String}
use drop_app.Remote.Error.{RemoteAccessError}
use drop_app.Database.Metadata.{DownloadableMetadata}

pub data ApplicationDownloadError : Type 0 where
  not_initialized : ApplicationDownloadError
  communication : RemoteAccessError → ApplicationDownloadError
  disk_full : ℕ → ℕ → ApplicationDownloadError
  checksum : ApplicationDownloadError
  lock : ApplicationDownloadError
  io_error : String → ApplicationDownloadError
  download_error : RemoteAccessError → ApplicationDownloadError

-- An agent is shared, so a signal carries its address.
pub data DownloadManagerSignal : Type 0 where
  go : DownloadManagerSignal
  stop : DownloadManagerSignal
  completed : DownloadableMetadata → DownloadManagerSignal
  queue : ℕ → DownloadManagerSignal
  finish : DownloadManagerSignal
  cancel : DownloadableMetadata → DownloadManagerSignal
  error : ApplicationDownloadError → DownloadManagerSignal
  update_ui_queue : DownloadManagerSignal
  update_ui_stats : ℕ → ℕ → DownloadManagerSignal

pub data DownloadManagerStatus : Type 0 where
  downloading paused empty failed : DownloadManagerStatus

pub data DownloadStatus : Type 0 where
  queued downloading validating failed : DownloadStatus
