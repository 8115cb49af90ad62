-- ===== src/Dbio/DataFile.antt =====
-- The interface `DataFile` of src/simplejsondb/dbio/data_file.go, and the file that the tests use,
-- src/test_utils/in_memory_data_file.go. The file on disk is in Disk.
pub mod Disk
pub mod Os
pub mod Blocks
mod Tests
use pucrs_metadata_db.Base.{
  ℕ, ◌*◌, ◌%◌, ◌<◌, ◌≡◌, ◌≢◌, arith, ltb, ◌==◌, if◌then◌else◌, Result, ok, err, panic,
  invalid_block,
}
use pucrs_metadata_db.Dbio.Bytes.{Mem}

abbrev pub datafile_size : ℕ
datafile_size = 1024 * 1024 * 256

abbrev pub datablock_size : ℕ
datablock_size = 1024 * 4

-- `ReadBlock` fills the caller's `datablock_size` bytes: the model returns them. `WriteBlock` also
-- returns the file that it leaves. The laws are what a caller relies on.
pub record DataFile : Type 1 where
  pub File : Type 0
  pub read_block : File → ℕ → Result Mem
  pub write_block : File → ℕ → Mem → File × Result (Unit {0})
  pub read_written :
      (f : File) (id : ℕ) (d : Mem)
      → (write_block f id d).1 ≡ ok tt
      → read_block (write_block f id d).0 id ≡ ok d
  pub read_other :
      (f : File) (id j : ℕ) (d : Mem)
      → id ≢ j
      → read_block (write_block f id d).0 j ≡ read_block f j

-- `Blocks [][]byte`: `count` blocks.
pub record InMemoryDataFile : Type 0 where
  pub count : ℕ
  pub blocks : ℕ → Mem

unfoldable pub new_fake_data_file : ℕ → InMemoryDataFile
new_fake_data_file blocks_count = record { count = blocks_count; blocks = λ _ _. 0 }

-- An id past the blocks is an error. Their number is taken as an `uint16`.
unfoldable pub read_block_func : InMemoryDataFile → ℕ → Result Mem
read_block_func df id = if ltb id (df.count % 65536) then ok (df.blocks id) else err invalid_block

-- `blocks[id]` past the blocks panics.
unfoldable pub write_block_func : InMemoryDataFile → ℕ → Mem → InMemoryDataFile × Result (Unit {0})
write_block_func df id d =
    if ltb id df.count
    then (record df { blocks = λ j. if j == id then d else df.blocks j }, ok tt)
    else (df, panic)

-- A file of the tests whose blocks can be numbered.
abbrev pub FewBlocks : Type 0
FewBlocks = (f : InMemoryDataFile) × (f.count < 65536)

pub fake_write_count :
    (f : InMemoryDataFile) (id : ℕ) (d : Mem) → (write_block_func f id d).0.count ≡ f.count
unfolding write_block_func
fake_write_count f id d = ground arith

abbrev pub write_few : FewBlocks → ℕ → Mem → FewBlocks × Result (Unit {0})
write_few (f, few) id d = (
  ((write_block_func f id d).0, omega (arith, fake_write_count f id d, few)),
  (write_block_func f id d).1,
)

pub fake_read_written :
    (f : FewBlocks) (id : ℕ) (d : Mem)
    → (write_few f id d).1 ≡ ok tt
    → read_block_func (write_few f id d).0.0 id ≡ ok d
unfolding read_block_func write_block_func
fake_read_written (f, few) id d h = ground (arith, h, few)

pub fake_read_other :
    (f : FewBlocks) (id j : ℕ) (d : Mem)
    → id ≢ j
    → read_block_func (write_few f id d).0.0 j ≡ read_block_func f.0 j
unfolding read_block_func write_block_func
fake_read_other (f, few) id j d h = ground (arith, h)

-- The file of the tests meets the interface.
abbrev pub fake_data_file : DataFile
fake_data_file = record {
  File = FewBlocks;
  read_block = λ f. read_block_func f.0;
  write_block = write_few;
  read_written = fake_read_written;
  read_other = fake_read_other;
}
