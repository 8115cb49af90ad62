-- ===== src/Core.antt =====
-- Package core: what the blocks of the data file hold.
pub mod RecordBlock
pub mod ControlBlock
pub mod Repository
pub mod DataBlocksMap
pub mod RecordLoader
pub mod RecordAllocator
pub mod IndexLeaf
pub mod IndexBranch
pub mod IndexAdapter
