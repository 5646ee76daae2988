-- ===== src/Capture.antt =====
-- The input capture of server/src/capture.rs: what the callback does with each event that `rdev`
-- reports. The atomics and mutexes are the fields of a record, since the callback runs on one
-- thread; the rest of the server may set `enabled` between two events. An `f64` is of a type `F`
-- with the operations that the code uses.
pub mod Modifiers
pub mod Types
pub mod Process
pub mod Gating
pub mod Hotkeys
pub mod Mouse
pub mod Grab
