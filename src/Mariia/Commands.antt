-- ===== src/Mariia/Commands.antt =====
-- The commands under project/mariia/sources/cmd, a module for each group.
pub mod Common
pub mod Talk
pub mod Join
pub mod Leave
pub mod Mode
pub mod Info
pub mod Topic
pub mod User
