-- ===== src/Remote.antt =====
-- src-tauri/remote: how the client talks to the server.
pub mod Error
pub mod Cache
pub mod ObjectCache
pub mod Auth
pub mod FetchObject
pub mod ServerProto
pub mod Requests
pub mod Certificates
