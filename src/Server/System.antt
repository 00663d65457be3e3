-- ===== src/Server/System.antt =====
-- The server as a whole: what holds of its statics and of the file system when its loop begins.
pub mod Ensures
pub mod Invariant
pub mod Started
