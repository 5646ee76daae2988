-- ===== src/Server.antt =====
-- The control-channel server of server/src/server.rs.
pub mod Startup
pub mod Config
pub mod State
pub mod Pairing
pub mod Messages
pub mod Forwarder
pub mod Pending
pub mod Pumps
pub mod Tls
pub mod Start
pub mod Clipboard
pub mod Authentication
pub mod LockedOut
pub mod Credit
pub mod Broadcasts
pub mod Notices
pub mod Socks5
