-- ===== src/Core/ControlBlock.antt =====
-- src/simplejsondb/core/control_block.go: the pointers that block 0 holds.
pub mod Laws
mod Tests
use pucrs_metadata_db.Base.{ℕ, ◌+◌, Result, ok, err, panic, out_of_fuel, ◌>>=◌, ◌>>◌}
use pucrs_metadata_db.Dbio.DataBlock.{DataBlock, read_uint16, write, uint16}

abbrev pub pos_next_available_datablock : ℕ
pos_next_available_datablock = 0

abbrev pub pos_first_block_ptr : ℕ
pos_first_block_ptr = 2

abbrev pub pos_btree_root : ℕ
pos_btree_root = 4

abbrev pub pos_btree_first_leaf : ℕ
pos_btree_first_leaf = 6

unfoldable pub format : DataBlock → Result DataBlock
format cb = do
  cb ← write cb pos_next_available_datablock (uint16 3)
  cb ← write cb pos_first_block_ptr (uint16 3)
  cb ← write cb pos_btree_root (uint16 0)
  write cb pos_btree_first_leaf (uint16 0)

unfoldable pub first_record_data_block : DataBlock → Result ℕ
first_record_data_block cb = read_uint16 cb pos_first_block_ptr

unfoldable pub set_first_record_data_block : DataBlock → ℕ → Result DataBlock
set_first_record_data_block cb block_id = write cb pos_first_block_ptr (uint16 block_id)

unfoldable pub set_first_leaf : DataBlock → ℕ → Result DataBlock
set_first_leaf cb block_id = write cb pos_btree_first_leaf (uint16 block_id)

unfoldable pub first_leaf : DataBlock → Result ℕ
first_leaf cb = read_uint16 cb pos_btree_first_leaf

unfoldable pub set_index_root_block_id : DataBlock → ℕ → Result DataBlock
set_index_root_block_id cb block_id = write cb pos_btree_root (uint16 block_id)

unfoldable pub index_root_block_id : DataBlock → Result ℕ
index_root_block_id cb = read_uint16 cb pos_btree_root

unfoldable pub next_available_records_data_block_id : DataBlock → Result ℕ
next_available_records_data_block_id cb = read_uint16 cb pos_next_available_datablock

unfoldable pub set_next_available_records_data_block_id : DataBlock → ℕ → Result DataBlock
set_next_available_records_data_block_id cb block_id =
    write cb pos_next_available_datablock (uint16 block_id)
