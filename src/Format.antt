-- ===== src/Format.antt =====
-- salamander/src/format/mod.rs: the engine envelope and the frame around it.
pub mod Types
pub mod Checksum
pub mod Metadata
pub mod Cursor
pub mod Envelope
pub mod Frame
pub mod Runs
