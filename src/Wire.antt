-- ===== src/Wire.antt =====
-- src/mongodb.rs: the MongoDB wire protocol.
mod Examples
pub mod Header
pub mod Rules
pub mod OpMsg
pub mod Legacy
pub mod Session
pub mod Message
pub mod Dump
pub mod Show
