-- ===== src/Ann/Commands.antt =====
-- The commands of ann/srcs/Commands.cpp, a module for each group.
pub mod Common
pub mod Register
pub mod Talk
pub mod Leave
pub mod Join
pub mod Channel
pub mod Mode
pub mod Dispatch
