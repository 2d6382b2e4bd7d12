-- ===== src/Remote/Error.antt =====
-- src-tauri/remote/src/error.rs. An error of another library is the text that it prints.
use drop_app.Prelude.{ℕ, String}

pub record DropServerError : Type 0 where
  pub status_code : ℕ
  pub status_message : String

pub data RemoteAccessError : Type 0 where
  fetch_error : String → RemoteAccessError
  fetch_error_ws : String → RemoteAccessError
  parsing_error : String → RemoteAccessError
  invalid_endpoint : RemoteAccessError
  handshake_failed : String → RemoteAccessError
  game_not_found : String → RemoteAccessError
  invalid_response : DropServerError → RemoteAccessError
  unparseable_response : String → RemoteAccessError
  manifest_download_failed : ℕ → String → RemoteAccessError
  out_of_sync : RemoteAccessError
  cache : String → RemoteAccessError
  corrupted_state : RemoteAccessError

-- A header's name, or the error of another library, as its text.
pub data CacheError : Type 0 where
  header_not_found : String → CacheError
  parse_error : String → CacheError
  remote : RemoteAccessError → CacheError
  construction_error : String → CacheError
