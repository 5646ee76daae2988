-- ===== src/Examples.antt =====
-- The theorems at concrete inputs.
pub mod Setup
pub mod Wire
pub mod Proxy
pub mod Access
pub mod Notices
pub mod Input
pub mod Files
pub mod Client
pub mod Panel
pub mod Typing
pub mod Pinned
pub mod Trust
pub mod Restart
