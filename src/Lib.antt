-- ===== src/Lib.antt =====
-- A model of simple-json-db, a JSON database in Go on one file of 65536 blocks of 4096 bytes, with the
-- theorems that its parts meet.
--
-- The program, from the file up:
-- - src/simplejsondb/dbio reads and writes blocks. A buffer keeps some of them in frames of memory and
--   evicts by second chance; a data block has typed reads and writes; a bitmap reads bytes as flags.
-- - src/simplejsondb/core gives blocks a layout: block 0 holds pointers, blocks 1 and 2 say which blocks are
--   in use, the others hold records or nodes of the index. A record that does not fit one block goes on
--   in another, by a chained row ID.
-- - bplustree has the B+ tree of the index, over an adapter that stores its nodes.
-- - simplejsondb and src/simplejsondb/actions put these together, and src/cmd/sjdb-cli is the console.
--
-- The files:
-- - Base: the outcome of a call (a value, an error, a panic, or a model that ran out of fuel), Boolean
--   tests, lists indexed by native numbers, `int`.
-- - Dbio.Bytes: byte slices and big-endian integers (encoding/binary).
-- - Dbio.DataBlock: src/simplejsondb/dbio/data_block.go. A block is a length and a function from positions to
--   bytes; each access is checked against the length, and fails with a panic.
-- - Dbio.BitMap: src/simplejsondb/dbio/bit_map.go, with `int` positions, negative ones too.
-- - Dbio.DataFile: the interface of src/simplejsondb/dbio/data_file.go as a record of operations with the laws
--   that the buffer relies on, and src/test_utils/in_memory_data_file.go, which meets them where it has
--   fewer than 65536 blocks.
--   Dbio.DataFile.Disk has the file on disk over the calls of package os, which are a parameter; what is
--   used of their documentation is in Dbio.DataFile.Os.
-- - Dbio.DataBuffer: src/simplejsondb/dbio/data_buffer.go over any such file. `idToFrame` is a function to the
--   index of a frame; a frame is shared by writing to it through its index, as the `Data` of a fetched
--   block shares the bytes of its frame in Go. The order in which `Sync` visits the map is an argument.
-- - Core.RecordBlock: src/simplejsondb/core/record_block.go. The operations take the bytes of the block and
--   return them; the sort of the standard library is a parameter, of which the theorems use that it
--   permutes the headers.
-- - Core.ControlBlock: src/simplejsondb/core/control_block.go, on the bytes of block 0.
-- - Core.Repository: src/simplejsondb/core/data_block_repository.go. A program passes the buffer on. A fetched
--   block is a handle: the number of the block and the frame that its bytes are shared with, so that a
--   handle that is kept while its frame gets another block reads and writes that one, as in Go.
-- - Core.Repository.Sees: what a client sees of a buffer over a file that serves its blocks, as one array of
--   bytes for each block, with what a fetch, a read and a change do to it.
-- - Core.DataBlocksMap: src/simplejsondb/core/data_blocks_map.go and
--   src/simplejsondb/core/data_file_formatter.go.
-- - Core.RecordLoader: src/simplejsondb/core/record_loader.go.
-- - Core.RecordAllocator: src/simplejsondb/core/record_allocator.go, with the list of record blocks in
--   Core.RecordAllocator.BlocksList.
-- - Core.IndexLeaf and Core.IndexBranch: the nodes of src/simplejsondb/core/uint32_index_node_adapter.go, on the
--   bytes of a block; Core.IndexAdapter: the adapter and the methods of its nodes, as programs on the buffer.
-- - BPlusTree: src/bplustree/exports.go, src/bplustree/in_memory_adapter.go and src/bplustree/bplus_tree.go. A program
--   passes the adapter on; a node is its ID, looked up at each use.
-- - SimpleJsonDb: src/simplejsondb/simple_json_db.go, and in SimpleJsonDb.Actions the requests of
--   src/simplejsondb/actions, over any index that has the methods of src/simplejsondb/core/uint32_index.go.
--   Of that index nothing is assumed; SimpleJsonDb.Opening is about opening and closing a database.
-- - Console: src/cmd/sjdb-cli/main.go over the interface `SimpleJSONDB`, with what it writes as a list of
--   messages; `json.Indent` is a parameter. Console.Strings has what is used of the
--   packages strings and strconv.
--
-- Fuel: the loop of `evictFrame` has one round more than there are frames, since after a round for each
-- frame it is back at one whose reference it has cleared. `defragment` has a round for each header, of
-- which each uses one. The binary search has a round for each key, since a round at least halves what is
-- left. Each round of `allocateRecord` writes at least one byte.
-- The walks over the nodes of a tree have fuel that the caller gives; a walk down from the root uses
-- one unit for each node on its way.
--
-- Not modelled: logging, the set-up of the line editor, the layout of what the console writes, the
-- debugger, the benchmarks, the vendored packages, encoding/json (a parameter), and for now the tree over the adapter on disk, which
-- src/simplejsondb/core/uint32_index.go puts together: the tree is modelled over the adapter in memory. The loops
-- over chained rows and over the list of blocks end in Go only if the chain and the list do; their fuel is
-- the caller's.
pub mod Base
pub mod Dbio
pub mod Core
pub mod BPlusTree
pub mod SimpleJsonDb
pub mod Console
