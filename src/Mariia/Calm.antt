-- ===== src/Mariia/Calm.antt =====
-- No command crashes, and each keeps the invariant: a module for each group of commands.
pub mod Replies
pub mod Talk
pub mod Join
pub mod Leave
pub mod Options
pub mod Mode
pub mod Topic
pub mod Info
pub mod User
pub mod Parse
