-- ===== src/Data.antt =====
-- crate-lib/src/data: the parts of an archive's metadata, and how they are encoded and decoded.
pub mod Utf8
pub mod Name
pub mod Timestamp
pub mod Header
pub mod Directory
pub mod File
pub mod FtSegment
pub mod PathInArchive
mod Tests
