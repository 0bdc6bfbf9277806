-- ===== src/Segment.antt =====
-- The metadata of one index segment: SegmentMetaEntry of pg_search/src/postgres/storage/block.rs.
-- A segment id (a 16-byte uuid of tantivy) is a number, and so are a block number and a row pointer.
pub mod Tag
pub mod Data
pub mod Mutable
pub mod Meta
pub mod Lifecycle
mod Examples
