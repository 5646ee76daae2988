-- ===== src/Client.antt =====
-- The client library, client/src.
pub mod Inject
pub mod Addr
pub mod Hex
pub mod Config
pub mod Handshake
pub mod Connect
pub mod Session
pub mod Reconnect
pub mod Sending
pub mod Clipboard
pub mod Discovery
pub mod CommandLine
