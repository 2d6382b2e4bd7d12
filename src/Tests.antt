-- ===== src/Tests.antt =====
-- The theorems at work on small inputs.
pub mod Downloads
pub mod Validation
pub mod Client
pub mod Pipeline
pub mod Transfers
pub mod Queue
pub mod Process
pub mod Remote
pub mod Commands
pub mod Session
pub mod Access
pub mod Links
pub mod CloudSaves
pub mod Tray
pub mod Normal
pub mod Clients
