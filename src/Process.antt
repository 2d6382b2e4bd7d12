-- ===== src/Process.antt =====
-- src-tauri/process/src/error.rs: how launching, killing or finishing a game fails. An I/O error or
-- the error of the opener is its text.
pub mod Compat
pub mod Handlers
pub mod Manager
pub mod Launch
pub mod Finish
pub mod Platforms
pub mod Ends
pub mod Sessions
use drop_app.Prelude.{String}

pub data ProcessError : Type 0 where
  not_installed already_running invalid_id invalid_version : ProcessError
  io_error : String → ProcessError
  format_error : String → ProcessError
  invalid_platform : ProcessError
  opener_error : String → ProcessError
  invalid_arguments : String → ProcessError
  failed_launch : String → ProcessError
