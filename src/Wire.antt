-- ===== src/Wire.antt =====
-- What client and server share: decimal numbers in text fields, and the pipes between them.
pub mod OpCode
pub mod Text
pub mod Decimal
pub mod Pipes
pub mod Slait
pub mod Stream
