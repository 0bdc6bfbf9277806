-- ===== src/Lib.antt =====
-- The storage layer, the segment bookkeeping and the proximity match of ParadeDB's pg_search
-- extension, which keeps a tantivy search index in Postgres pages.
--
-- An index is a set of segments. Each has an entry (SegmentMetaEntry) on a list of linked items,
-- which is a chain of Postgres pages. An entry is immutable, naming the block where each file of the
-- segment starts, or mutable, naming a second list that logs added and removed rows. When a segment
-- is merged away its entry is marked deleted, and once no reader pins it its blocks go to the free
-- space manager, which gives them out again when a transaction horizon has passed. The merge policy
-- reads the entries and chooses the segments that are merged next. A proximity query compares the
-- positions of two terms in a document of a segment.
--
-- Files, and the code each is about:
--   Common        shared names, tests, and lemmas on lists, counts and results
--   Xid           pg_search/src/postgres/utils.rs, TransactionIdPrecedesOrEquals
--   LinkedItems   pg_search/src/postgres/storage/linked_items.rs, LinkedItemList and AtomicGuard
--   Segment       pg_search/src/postgres/storage/block.rs: Tag (SegmentMetaEntryTag), Data (the
--                 data types), Mutable (mutable_add_items, mutable_delete_items,
--                 mutable_snapshot), Meta (the other methods of SegmentMetaEntry), Lifecycle
--                 (the calls that change an entry, in any order)
--   MergePolicy   pg_search/src/index/merge_policy.rs, LayeredMergePolicy
--   FreeSpace     pg_search/src/postgres/storage/fsm.rs: V1 (module v1), V2 (module v2,
--                 extend_with_when_recyclable)
--   Avl           pg_search/src/postgres/storage/avl.rs: the slots of the arena, and the lookups get,
--                 get_lte, get_slot_mut, get_max_slot and iter; Change (the rotations, rebalance,
--                 insert), Remove (remove), New (new), Maps (the operations together)
--   Proximity     pg_search/src/query/proximity/mod.rs and scorer.rs, ProximityDistance, ProxIter
-- Functions keep the names of the source. A module with child modules holds the definitions, its
-- children hold the proofs, and the modules named Examples hold runs and instances.
--
-- State is passed explicitly: an operation takes the chain of pages, or the entry, and returns the
-- new one. A chain is the list of its pages in the order of the next_blockno links. Machine words
-- are natural numbers, with the wrap-around of a release build written out, save that the byte sizes of
-- a segment's files are taken to add up to less than 2 ^ 64. An error is `err`, a
-- panic `panic`. The Postgres buffer manager lies outside the repository: which blocks it hands out
-- is an explicit supply, whether an item fits on a page a parameter, and what other backends do between
-- a read and a lock (Locks) a parameter too.
--
-- Fuel: the trimming loop of the merge policy removes one candidate a round, so as many rounds as
-- there are candidates are enough, and the pairs of a proximity match use up one left position each.
-- A lookup in an arena has enough fuel when it is given the depth of the tree, and insertion and
-- removal when they are given 34: an arena has fewer than 2 ^ 16 slots, and a balanced tree of so few
-- nodes is 33 deep at most. The retry loop of an edit runs along a given list of rounds. The other
-- loops run along a chain and recurse on it, so a chain is taken to have no cycle.
--
-- Not modelled: the write-ahead log, the pin counts, locks other than the ones above, files and
-- paths, drain of the second free space manager, the doc sets of tantivy, and everything that calls
-- Postgres or tantivy without a decision of its own.
pub mod Common
pub mod Xid
pub mod LinkedItems
pub mod Segment
pub mod MergePolicy
pub mod FreeSpace
pub mod Avl
pub mod Proximity
