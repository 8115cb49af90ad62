-- ===== src/Core/DataBlocksMap.antt =====
-- src/simplejsondb/core/data_blocks_map.go: the blocks in use, as flags on the blocks 1 and 2, and
-- src/simplejsondb/core/data_file_formatter.go. The programs run on the buffer.
pub mod Flags
pub mod Spec
pub mod Search
pub mod Format
pub mod Tests
use pucrs_metadata_db.Base.{
  ℕ, zero, suc, ◌+◌, ◌*◌, ◌/◌, ◌%◌, ◌==◌, Bool, true, false, if◌then◌else◌, Option, none, some,
  List, [], ◌∷◌, Result, ok, err, panic, out_of_fuel, must,
}
use pucrs_metadata_db.Base.Int.{ℤ, pos}
use pucrs_metadata_db.Dbio.DataBlock.{DataBlock, mem, with_mem}
use pucrs_metadata_db.Dbio.DataFile.{DataFile, datablock_size}
use pucrs_metadata_db.Dbio.DataBuffer.{DataBuffer, sync, new_data_buffer}
use pucrs_metadata_db.Dbio.BitMap
use pucrs_metadata_db.Dbio.BitMap.{BitMap}
use pucrs_metadata_db.Core.ControlBlock.{format, next_available_records_data_block_id}
use pucrs_metadata_db.Core.Repository.{Prog, Handle, pure, ◌>>=◌, ◌>>◌, fetch, look, change, dirty}

abbrev pub data_block_map_first_block : ℕ
data_block_map_first_block = 1

abbrev pub data_block_map_blocks_count : ℕ
data_block_map_blocks_count = 2

-- The bitmap on a block shares its bytes.
unfoldable pub update_flags : (BitMap → ℤ → Result BitMap) → ℕ → DataBlock → Result DataBlock
update_flags update_func flag_offset block =
    elim (must (update_func (BitMap.new_from_bytes block.contents) (pos flag_offset))) [
      | ok bit_map ↦ ok (with_mem block (BitMap.bytes bit_map).byte)
      | err e ↦ err e
      | panic ↦ panic
      | out_of_fuel ↦ out_of_fuel
    ]

-- The first flag from `i` on that is not set, of the `n` that are looked at.
unfoldable pub flags_loop : ℕ → ℕ → BitMap → Result (Option ℕ)
flags_loop zero i bit_map = ok none
flags_loop (suc n) i bit_map =
    let rest = flags_loop n (i + 1) bit_map in
    elim (must (BitMap.get bit_map (pos i))) [
      | ok in_use ↦ if in_use then rest else ok (some i)
      | err e ↦ err e
      | panic ↦ panic
      | out_of_fuel ↦ out_of_fuel
    ]

unfoldable pub first_flag : DataBlock → Result (Option ℕ)
first_flag block = flags_loop datablock_size 0 (BitMap.new_from_bytes block.contents)

unfoldable pub flag_at : ℕ → DataBlock → Result Bool
flag_at flag_offset block =
    must (BitMap.get (BitMap.new_from_bytes block.contents) (pos flag_offset))

module _ {df : DataFile} where
  -- The block of the map with the flag, and the position of the flag in it.
  unfoldable pub tuple_for_block_id : ℕ → Prog df (Handle × ℕ)
  tuple_for_block_id data_block_id = do
    block ← fetch (data_block_map_first_block + data_block_id / datablock_size)
    pure (block, data_block_id % datablock_size)

  unfoldable pub update_bit_map : ℕ → (BitMap → ℤ → Result BitMap) → Prog df (Unit {0})
  update_bit_map data_block_id update_func = do
    (block, flag_offset) ← tuple_for_block_id data_block_id
    change block (update_flags update_func flag_offset)
    dirty (data_block_map_first_block + data_block_id / datablock_size)

  unfoldable pub mark_as_free : ℕ → Prog df (Unit {0})
  mark_as_free data_block_id = update_bit_map data_block_id BitMap.unset

  unfoldable pub mark_as_used : ℕ → Prog df (Unit {0})
  mark_as_used data_block_id = update_bit_map data_block_id BitMap.set

  unfoldable pub is_in_use : ℕ → Prog df Bool
  is_in_use data_block_id = do
    (block, flag_offset) ← tuple_for_block_id data_block_id
    look block (flag_at flag_offset)

  -- The loop that `FirstFree` and `AllInUse` have in common, over `n` blocks.
  unfoldable pub blocks_loop : ℕ → ℕ → Prog df (Option ℕ)
  blocks_loop zero block_index = pure none
  blocks_loop (suc n) block_index = do
    block ← fetch (data_block_map_first_block + block_index)
    free ← look block first_flag
    elim free [
      | some i ↦ pure (some (i + block_index * datablock_size))
      | none ↦ blocks_loop n (block_index + 1)
    ]

  -- 0 if all blocks are in use.
  unfoldable pub first_free : Prog df ℕ
  first_free = do
    free ← blocks_loop data_block_map_blocks_count 0
    pure (elim free [ some id ↦ id | none ↦ 0 ])

  unfoldable pub all_in_use : Prog df Bool
  all_in_use = do
    free ← blocks_loop data_block_map_blocks_count 0
    pure (elim free [ some id ↦ false | none ↦ true ])

  unfoldable pub mark_loop : ℕ → ℕ → Prog df (Unit {0})
  mark_loop zero i = pure tt
  mark_loop (suc n) i = do mark_as_used i; mark_loop n (i + 1)

  -- `order` is the order in which `Sync` visits its map.
  unfoldable pub format_if_needed : List ℕ → Prog df (Unit {0})
  format_if_needed order = do
    control_block ← fetch 0
    next ← look control_block next_available_records_data_block_id
    elim (next == 0) [
      | true ↦ do
        change control_block format
        dirty control_block.id
        mark_loop 4 0
        λ db. sync db order
      | false ↦ pure tt
    ]

unfoldable pub format_data_file_if_needed :
    (df : DataFile) → df.File → List ℕ → DataBuffer df × Result (Unit {0})
format_data_file_if_needed df data_file order =
    format_if_needed order (new_data_buffer df data_file 5)
