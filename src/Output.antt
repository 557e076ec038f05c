-- ===== src/Output.antt =====
-- src/output.rs: how a record is written.
pub mod Tokens
pub mod Format
pub mod Writer
pub mod Numbers
pub mod Render
pub mod Base64
mod Tests
