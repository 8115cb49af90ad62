-- ===== src/Core/RecordAllocator/BlocksList.antt =====
-- The list of record blocks of src/simplejsondb/core/record_allocator.go: a block is appended, and a
-- block without records leaves it.
use pucrs_metadata_db.Base.{ℕ, zero, suc, true, false, ◌==◌, Result, ok, err, panic, out_of_fuel}
use pucrs_metadata_db.Dbio.DataFile.{DataFile}
use pucrs_metadata_db.Dbio.DataBlock.{DataBlock}
use pucrs_metadata_db.Dbio.DataBuffer.{DataBuffer, fetch_block}
use pucrs_metadata_db.Core.ControlBlock.{
  set_first_record_data_block, set_next_available_records_data_block_id,
}
use pucrs_metadata_db.Core.DataBlocksMap.{first_free, mark_as_used, mark_as_free}
use pucrs_metadata_db.Core.Repository.{Prog, Handle, pure, ◌>>=◌, ◌>>◌, fetch, look, change, dirty}
use pucrs_metadata_db.Core.RecordBlock.{RowId}
use pucrs_metadata_db.Core.RecordBlock.Methods.{
  remove, clear, total_records, next_block_id, set_next_block_id, prev_block_id, set_prev_block_id,
  chained_row_id,
}

module _ {df : DataFile} where
  -- An error that the caller drops.
  unfoldable pub ignored : DataBuffer df × Result (Unit {0}) → DataBuffer df × Result (Unit {0})
  ignored (db, err e) = (db, ok tt)
  ignored (db, ok x) = (db, ok x)
  ignored (db, panic) = (db, panic)
  ignored (db, out_of_fuel) = (db, out_of_fuel)

  -- A setter of a block, which then is marked as dirty.
  unfoldable pub set_next : ℕ → ℕ → Prog df (Unit {0})
  set_next block_id next = do
    block ← fetch block_id
    change block (λ b. set_next_block_id b next)
    dirty block_id

  unfoldable pub set_prev : ℕ → ℕ → Prog df (Unit {0})
  set_prev block_id prev = do
    block ← fetch block_id
    change block (λ b. set_prev_block_id b prev)
    dirty block_id

  unfoldable pub allocate_new_block : ℕ → Prog df ℕ
  allocate_new_block starting_block_id = do
    new_block_id ← first_free
    mark_as_used new_block_id
    set_prev new_block_id starting_block_id
    set_next starting_block_id new_block_id
    control_block ← fetch 0
    change control_block (λ b. set_next_available_records_data_block_id b new_block_id)
    dirty control_block.id
    pure new_block_id

  -- `FetchBlock`, whose error is returned.
  unfoldable pub try_fetch : ℕ → Prog df DataBlock
  try_fetch id db = fetch_block db id

  -- The first block of the list goes: the control block is to point to the next one.
  unfoldable pub set_first : ℕ → Prog df (Unit {0})
  set_first next = do
    control_data_block ← try_fetch 0
    control_block ← fetch 0
    change control_block (λ b. set_first_record_data_block b next)
    dirty control_data_block.id

  -- The general case. It also comes after `set_first`, with 0 for the block before.
  unfoldable pub unlink : Handle → ℕ → ℕ → Prog df (Unit {0})
  unlink empty_block prev next = do
    set_next prev next
    set_prev next prev
    change empty_block clear
    mark_as_free empty_block.id

  unfoldable pub remove_from_list : Handle → Prog df (Unit {0})
  remove_from_list empty_block = do
    prev ← look empty_block prev_block_id
    next ← look empty_block next_block_id
    elim (next == 0) [
      | true ↦ pure tt
      | false ↦ do
        elim (prev == 0) [ true ↦ set_first next | false ↦ pure tt ]
        unlink empty_block prev next
    ]

  -- A chain that comes back to one of its rows does not end, and uses up any fuel.
  unfoldable pub remove_row : ℕ → RowId → Prog df (Unit {0})
  remove_row zero row = λ db. (db, out_of_fuel)
  remove_row (suc fuel) row = do
    first_block ← fetch row.data_block_id
    chained ← look first_block (λ b. chained_row_id b row.local_id)
    elim (chained.data_block_id == 0) [ true ↦ pure tt | false ↦ remove_row fuel chained ]
    change first_block (λ b. remove b row.local_id)
    total ← look first_block total_records
    elim (total == 0) [ true ↦ remove_from_list first_block | false ↦ pure tt ]
