-- ===== src/BPlusTree.antt =====
-- bplustree: B+ trees over nodes that an adapter stores.
pub mod Entries
pub mod Adapter
pub mod NodeOps
pub mod Leaf
pub mod Branch
pub mod Find
pub mod Insert
pub mod Delete
mod Tests
