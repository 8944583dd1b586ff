-- ===== src/Ann/Tests.antt =====
-- Tests, and the theorems at concrete inputs.
mod Sample
mod Server
mod Parse
