-- ===== src/Log.antt =====
-- salamander/src/log: the segmented log.
pub mod Record
pub mod Batch
pub mod Scan
pub mod Segment
pub mod Store
mod Runs
