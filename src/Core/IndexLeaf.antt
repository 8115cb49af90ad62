-- ===== src/Core/IndexLeaf.antt =====
-- The leaves of the index on disk: `uint32IndexLeafNode` in
-- src/simplejsondb/core/uint32_index_node_adapter.go, as operations on the bytes of a block. That each
-- change also marks the block as dirty is in Core.IndexAdapter.
pub mod Laws
pub mod Delete
mod Tests
use pucrs_metadata_db.Base.{
  ℕ, zero, suc, ◌+◌, ◌-◌, ◌*◌, ◌%◌, ◌==◌, ltb, leb, Bool, if◌then◌else◌, List, [], ◌∷◌, Result, ok,
  err, panic, out_of_fuel, ◌>>=◌, ◌>>◌, assert,
}
use pucrs_metadata_db.Dbio.Bytes.{copy_down}
use pucrs_metadata_db.Dbio.DataBlock.{
  DataBlock, mem, size, with_mem, read_uint8, read_uint16, read_uint32, write, uint16, uint32,
  unshift,
}
use pucrs_metadata_db.Core.RecordBlock.{RowId}

abbrev pub btree_pos_type : ℕ
btree_pos_type = 0

abbrev pub btree_pos_total_keys : ℕ
btree_pos_total_keys = btree_pos_type + 1

abbrev pub btree_pos_parent_id : ℕ
btree_pos_parent_id = btree_pos_total_keys + 2

abbrev pub btree_pos_left_sibling : ℕ
btree_pos_left_sibling = btree_pos_parent_id + 2

abbrev pub btree_pos_right_sibling : ℕ
btree_pos_right_sibling = btree_pos_left_sibling + 2

abbrev pub btree_pos_entries_offset : ℕ
btree_pos_entries_offset = btree_pos_right_sibling + 2

abbrev pub btree_leaf_entry_size : ℕ
btree_leaf_entry_size = 8

abbrev pub btree_leaf_offset_key : ℕ
btree_leaf_offset_key = 0

abbrev pub btree_leaf_offset_block_id : ℕ
btree_leaf_offset_block_id = 4

abbrev pub btree_leaf_offset_local_id : ℕ
btree_leaf_offset_local_id = 6

-- A key and the row ID that is its item.
pub record IndexEntry : Type 0 where
  pub key : ℕ
  pub row_id : RowId

abbrev offset_of : ℕ → ℕ
offset_of position = btree_pos_entries_offset + position * btree_leaf_entry_size

unfoldable pub node_is_leaf : DataBlock → Result Bool
node_is_leaf b = do t ← read_uint8 b btree_pos_type; ok (t == 2)

unfoldable pub node_total_keys : DataBlock → Result ℕ
node_total_keys b = read_uint16 b btree_pos_total_keys

unfoldable pub read_entry : DataBlock → ℕ → Result IndexEntry
read_entry b entry_offset = do
  key ← read_uint32 b (entry_offset + btree_leaf_offset_key)
  block_id ← read_uint16 b (entry_offset + btree_leaf_offset_block_id)
  local_id ← read_uint16 b (entry_offset + btree_leaf_offset_local_id)
  ok (record { key = key; row_id = record { data_block_id = block_id; local_id = local_id } })

-- The position -1, which the source takes for 0, does not come up: the tree hands on what
-- `findOnNode` gives.
unfoldable pub insert_entry : DataBlock → ℕ → IndexEntry → Result DataBlock
insert_entry b position entry = do
  let write_offset = offset_of position
  total_keys ← node_total_keys b
  let b = if position == total_keys then b else unshift b write_offset btree_leaf_entry_size
  b ← write b (write_offset + btree_leaf_offset_key) (uint32 entry.key)
  b ← write b (write_offset + btree_leaf_offset_block_id) (uint16 entry.row_id.data_block_id)
  b ← write b (write_offset + btree_leaf_offset_local_id) (uint16 entry.row_id.local_id)
  write b btree_pos_total_keys (uint16 ((total_keys + 1) % 65536))

unfoldable pub entry_key_at : DataBlock → ℕ → Result ℕ
entry_key_at b position = read_uint32 b (offset_of position + btree_leaf_offset_key)

unfoldable pub entry_item_at : DataBlock → ℕ → Result RowId
entry_item_at b position = do
  block_id ← read_uint16 b (offset_of position + btree_leaf_offset_block_id)
  local_id ← read_uint16 b (offset_of position + btree_leaf_offset_local_id)
  ok (record { data_block_id = block_id; local_id = local_id })

-- `copy(Data[offset:], Data[offset+8:])` panics if the second slice starts past the end.
unfoldable pub delete_entry : DataBlock → ℕ → Result (IndexEntry × DataBlock)
delete_entry b position = do
  total_keys ← node_total_keys b
  assert (ltb position total_keys)
  let offset = offset_of position
  entry ← read_entry b offset
  assert (leb (offset + btree_leaf_entry_size) (size b))
  let b = with_mem b (copy_down (mem b) (size b) offset btree_leaf_entry_size)
  b ← write b btree_pos_total_keys (uint16 (total_keys - 1))
  ok (entry, b)

-- The entries from `offset` on, `n` of them.
unfoldable pub entries_loop : ℕ → ℕ → DataBlock → Result (List IndexEntry)
entries_loop zero offset b = ok []
entries_loop (suc n) offset b = do
  e ← read_entry b offset
  es ← entries_loop n (offset + btree_leaf_entry_size) b
  ok (e ∷ es)

unfoldable pub delete_entries_from : DataBlock → ℕ → Result (List IndexEntry × DataBlock)
delete_entries_from b start_position = do
  total_keys ← node_total_keys b
  entries ← entries_loop (total_keys - start_position) (offset_of start_position) b
  b ← write b btree_pos_total_keys (uint16 (start_position % 65536))
  ok (entries, b)

unfoldable pub all_entries : DataBlock → Result (List IndexEntry)
all_entries b = do
  total_keys ← node_total_keys b
  entries_loop total_keys btree_pos_entries_offset b
