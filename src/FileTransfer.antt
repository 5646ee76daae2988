-- ===== src/FileTransfer.antt =====
-- The file-transfer server, server/src/file_transfer.rs.
pub mod Names
pub mod Safety
pub mod Unique
pub mod Receive
pub mod Outcomes
pub mod Resume
pub mod Concurrent
