-- ===== src/Tests.antt =====
-- Concrete runs of the file system, and the theorems at concrete inputs.
mod Runs
mod Files
mod Messages
mod Calls
mod System
