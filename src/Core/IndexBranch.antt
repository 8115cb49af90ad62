-- ===== src/Core/IndexBranch.antt =====
-- The header of a node and the branches of the index on disk, in
-- src/simplejsondb/core/uint32_index_node_adapter.go, as operations on the bytes of a block. A branch is
-- a row of pointers with a key between each two: an entry is a key with the pointers on its sides.
pub mod Laws
mod Tests
use pucrs_metadata_db.Base.{
  ℕ, zero, suc, ◌+◌, ◌-◌, ◌*◌, ◌%◌, ◌==◌, ltb, leb, if◌then◌else◌, List, [], ◌∷◌, Result, ok, err,
  panic, out_of_fuel, ◌>>=◌, ◌>>◌, assert,
}
use pucrs_metadata_db.Dbio.Bytes.{copy_down}
use pucrs_metadata_db.Dbio.DataBlock.{
  DataBlock, mem, size, with_mem, read_uint16, read_uint32, write, uint16, uint32, unshift,
}
use pucrs_metadata_db.BPlusTree.Entries.{BranchEntry}
use pucrs_metadata_db.Core.IndexLeaf.{
  btree_pos_total_keys, btree_pos_parent_id, btree_pos_left_sibling, btree_pos_right_sibling,
  btree_pos_entries_offset, node_total_keys,
}

abbrev pub btree_branch_entry_jump : ℕ
btree_branch_entry_jump = 6

abbrev pub btree_branch_offset_left_block_id : ℕ
btree_branch_offset_left_block_id = 0

abbrev pub btree_branch_offset_key : ℕ
btree_branch_offset_key = 2

abbrev pub btree_branch_offset_right_block_id : ℕ
btree_branch_offset_right_block_id = 6

unfoldable pub node_parent_id : DataBlock → Result ℕ
node_parent_id b = read_uint16 b btree_pos_parent_id

unfoldable pub set_node_parent_id : DataBlock → ℕ → Result DataBlock
set_node_parent_id b id = write b btree_pos_parent_id (uint16 id)

unfoldable pub node_left_sibling_id : DataBlock → Result ℕ
node_left_sibling_id b = read_uint16 b btree_pos_left_sibling

unfoldable pub set_node_left_sibling_id : DataBlock → ℕ → Result DataBlock
set_node_left_sibling_id b id = write b btree_pos_left_sibling (uint16 id)

unfoldable pub node_right_sibling_id : DataBlock → Result ℕ
node_right_sibling_id b = read_uint16 b btree_pos_right_sibling

unfoldable pub set_node_right_sibling_id : DataBlock → ℕ → Result DataBlock
set_node_right_sibling_id b id = write b btree_pos_right_sibling (uint16 id)

-- The header of a new node.
unfoldable pub clear_node : DataBlock → Result DataBlock
clear_node b = do
  b ← write b btree_pos_total_keys (uint16 0)
  b ← write b btree_pos_parent_id (uint16 0)
  b ← write b btree_pos_right_sibling (uint16 0)
  write b btree_pos_left_sibling (uint16 0)

abbrev pub branch_offset_of : ℕ → ℕ
branch_offset_of position = btree_pos_entries_offset + position * btree_branch_entry_jump

unfoldable pub read_branch_entry : DataBlock → ℕ → Result BranchEntry
read_branch_entry b offset = do
  key ← read_uint32 b (offset + btree_branch_offset_key)
  lower ← read_uint16 b (offset + btree_branch_offset_left_block_id)
  greater_or_equal ← read_uint16 b (offset + btree_branch_offset_right_block_id)
  ok (record { key = key; lower = lower; greater_or_equal = greater_or_equal })

-- The first entry of a new branch.
unfoldable pub initial_entry : DataBlock → BranchEntry → Result DataBlock
initial_entry b entry = do
  let write_offset = btree_pos_entries_offset
  b ← write b (write_offset + btree_branch_offset_key) (uint32 entry.key)
  b ← write b (write_offset + btree_branch_offset_left_block_id) (uint16 entry.lower)
  b ← write b (write_offset + btree_branch_offset_right_block_id) (uint16 entry.greater_or_equal)
  write b btree_pos_total_keys (uint16 1)

unfoldable pub branch_key_at : DataBlock → ℕ → Result ℕ
branch_key_at b position = read_uint32 b (branch_offset_of position + btree_branch_offset_key)

unfoldable pub branch_entry_at : DataBlock → ℕ → Result BranchEntry
branch_entry_at b position = do
  total_keys ← node_total_keys b
  assert (ltb position total_keys)
  read_branch_entry b (branch_offset_of position)

-- `copy(Data[offset:], Data[offset+6:])` panics if the second slice starts past the end.
unfoldable pub close_gap : DataBlock → ℕ → Result DataBlock
close_gap b offset = do
  assert (leb (offset + btree_branch_entry_jump) (size b))
  ok (with_mem b (copy_down (mem b) (size b) offset btree_branch_entry_jump))

unfoldable pub delete_branch_entry : DataBlock → ℕ → Result (BranchEntry × DataBlock)
delete_branch_entry b position = do
  total_keys ← node_total_keys b
  assert (ltb position total_keys)
  let offset = branch_offset_of position
  entry ← read_branch_entry b offset
  b ← if position == total_keys - 1 then ok b else close_gap b offset
  b ← write b btree_pos_total_keys (uint16 (total_keys - 1))
  ok (entry, b)

unfoldable pub replace_branch_key : DataBlock → ℕ → ℕ → Result DataBlock
replace_branch_key b position key = do
  total_keys ← node_total_keys b
  assert (ltb position total_keys)
  write b (branch_offset_of position + btree_branch_offset_key) (uint32 key)

-- The entries from `offset` on, `n` of them.
unfoldable pub branch_entries_loop : ℕ → ℕ → DataBlock → Result (List BranchEntry)
branch_entries_loop zero offset b = ok []
branch_entries_loop (suc n) offset b = do
  e ← read_branch_entry b offset
  es ← branch_entries_loop n (offset + btree_branch_entry_jump) b
  ok (e ∷ es)

unfoldable pub delete_branch_entries_from : DataBlock → ℕ → Result (List BranchEntry × DataBlock)
delete_branch_entries_from b start_position = do
  total_keys ← node_total_keys b
  entries ← branch_entries_loop (total_keys - start_position) (branch_offset_of start_position) b
  b ← write b btree_pos_total_keys (uint16 (start_position % 65536))
  ok (entries, b)

-- A branch without keys then has 65535.
unfoldable pub shift_branch : DataBlock → Result DataBlock
shift_branch b = do
  b ← close_gap b (btree_pos_entries_offset + btree_branch_offset_key)
  total_keys ← node_total_keys b
  write b btree_pos_total_keys (uint16 ((total_keys + 65535) % 65536))

unfoldable pub all_branch_entries : DataBlock → Result (List BranchEntry)
all_branch_entries b = do
  total_keys ← node_total_keys b
  branch_entries_loop total_keys btree_pos_entries_offset b

-- The position -1, for which the source panics, does not come up.
unfoldable pub insert_branch_entry : DataBlock → ℕ → ℕ → ℕ → Result DataBlock
insert_branch_entry b position key gte_node_id = do
  let write_offset = branch_offset_of position
  let b = unshift b (write_offset + btree_branch_offset_left_block_id) btree_branch_entry_jump
  b ← write b (write_offset + btree_branch_offset_key) (uint32 key)
  b ← write b (write_offset + btree_branch_offset_right_block_id) (uint16 gte_node_id)
  total_keys ← node_total_keys b
  write b btree_pos_total_keys (uint16 ((total_keys + 1) % 65536))

unfoldable pub unshift_branch_entry : DataBlock → ℕ → ℕ → Result DataBlock
unshift_branch_entry b key lt_node_id = do
  let write_offset = btree_pos_entries_offset
  let b = unshift b (write_offset + btree_branch_offset_left_block_id) btree_branch_entry_jump
  b ← write b (write_offset + btree_branch_offset_key) (uint32 key)
  b ← write b (write_offset + btree_branch_offset_left_block_id) (uint16 lt_node_id)
  total_keys ← node_total_keys b
  write b btree_pos_total_keys (uint16 ((total_keys + 1) % 65536))
