-- ===== src/Proximity.antt =====
-- Proximity queries: pg_search/src/query/proximity.
pub mod Positions
mod Examples
