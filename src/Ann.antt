-- ===== src/Ann.antt =====
-- The server under ann/srcs.
pub mod State
pub mod Exec
pub mod Parse
pub mod Number
pub mod Replies
pub mod Commands
pub mod Loop
pub mod Tables
pub mod Keeps
pub mod Found
pub mod Total
pub mod Wf
pub mod Run
pub mod Rights
pub mod Access
pub mod Admission
pub mod Entry
pub mod Lookups
pub mod Crash
pub mod Buffers
pub mod Password
mod Tests
