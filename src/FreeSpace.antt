-- ===== src/FreeSpace.antt =====
-- The free space manager: pg_search/src/postgres/storage/fsm.rs.
pub mod V1
pub mod V2
