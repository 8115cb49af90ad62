-- ===== src/Core/RecordAllocator.antt =====
-- src/simplejsondb/core/record_allocator.go: where records go, over the list of record blocks. The
-- programs run on the buffer; a handle stays on its frame, also if the frame gets another block.
pub mod BlocksList
pub mod Fitting
pub mod Allocate
pub mod Tests
use pucrs_metadata_db.Base.{
  ℕ, zero, suc, ◌<◌, Bool, true, false, ◌==◌, ltb, if◌then◌else◌, List, [], ◌∷◌, length, take, drop,
  Result, ok, err, panic, out_of_fuel,
}
use pucrs_metadata_db.Dbio.DataBlock.{DataBlock}
use pucrs_metadata_db.Dbio.DataFile.{DataFile}
use pucrs_metadata_db.Dbio.DataBuffer.{DataBuffer}
use pucrs_metadata_db.Core.ControlBlock.{next_available_records_data_block_id}
use pucrs_metadata_db.Core.Repository.{Prog, Handle, pure, ◌>>=◌, ◌>>◌, fetch, look, change, dirty}
use pucrs_metadata_db.Core.RecordBlock.{RowId, Header, add}
use pucrs_metadata_db.Core.RecordBlock.Methods.{
  soft_remove, next_block_id, set_next_block_id, free_space_for_insert, chained_row_id,
  set_chained_row_id,
}
use pucrs_metadata_db.Core.RecordLoader.{Record}
use pucrs_metadata_db.Core.RecordAllocator.BlocksList.{ignored, allocate_new_block, remove_row}

-- The block that `RecordBlock.Add` leaves, and the local ID that it returns.
unfoldable pub block_of_add : Result (DataBlock × ℕ) → Result DataBlock
block_of_add (ok (b, local_id)) = ok b
block_of_add (err e) = err e
block_of_add panic = panic
block_of_add out_of_fuel = out_of_fuel

unfoldable pub id_of_add : Result (DataBlock × ℕ) → Result ℕ
id_of_add (ok (b, local_id)) = ok local_id
id_of_add (err e) = err e
id_of_add panic = panic
id_of_add out_of_fuel = out_of_fuel

module _ {df : DataFile} where
  -- The inner loop of `allocateRecord`: the first block from `record_block` on with free space. Each
  -- round moves on to the next block, or to a new one.
  unfoldable pub find_room : ℕ → Handle → Prog df Handle
  find_room zero record_block = λ db. (db, out_of_fuel)
  find_room (suc fuel) record_block = do
    free ← look record_block free_space_for_insert
    elim (free == 0) [
      | false ↦ pure record_block
      | true ↦ do
        next ← look record_block next_block_id
        next ← elim (next == 0) [ true ↦ allocate_new_block record_block.id | false ↦ pure next ]
        record_block ← fetch next
        find_room fuel record_block
    ]

  -- `panic` in `Update` if the record did not get its old local ID. On an error `allocateRecord`
  -- returns the local ID 0.
  unfoldable pub same_local_id : ℕ → DataBuffer df × Result ℕ → DataBuffer df × Result (Unit {0})
  same_local_id local_id (db, ok id) = if local_id == id then (db, ok tt) else (db, panic)
  same_local_id local_id (db, err e) = if local_id == 0 then (db, err e) else (db, panic)
  same_local_id local_id (db, panic) = (db, panic)
  same_local_id local_id (db, out_of_fuel) = (db, out_of_fuel)

  module _ (sort : List Header → List Header) where
    -- `RecordBlock.Add`, on the bytes behind the handle.
    unfoldable pub add_to : Handle → ℕ → List ℕ → Prog df ℕ
    add_to record_block record_id bytes = do
      local_id ← look record_block (λ b. id_of_add (add sort b record_id bytes))
      change record_block (λ b. block_of_add (add sort b record_id bytes))
      pure local_id

    -- The loop of `allocateRecord` over the bytes that are left. Each round uses up some.
    unfoldable pub chunks_loop : ℕ → ℕ → Handle → Handle → ℕ → List ℕ → Prog df (Unit {0})
    chunks_loop fuel record_id record_block prev_block prev_local_id [] = pure tt
    chunks_loop zero record_id record_block prev_block prev_local_id (x ∷ xs) =
        λ db. (db, out_of_fuel)
    chunks_loop (suc fuel) record_id record_block prev_block prev_local_id (x ∷ xs) = do
      record_block ← find_room fuel record_block
      free ← look record_block free_space_for_insert
      let bytes_to_write = if ltb free (length (x ∷ xs)) then free else length (x ∷ xs)
      next_local_id ← add_to record_block record_id (take bytes_to_write (x ∷ xs))
      dirty record_block.id
      let next_row : RowId = record { data_block_id = record_block.id; local_id = next_local_id }
      λ db. ignored (change prev_block (λ b. set_chained_row_id b prev_local_id next_row) db)
      dirty prev_block.id
      chunks_loop fuel record_id record_block record_block next_local_id
          (drop bytes_to_write (x ∷ xs))

    unfoldable pub allocate_record : ℕ → ℕ → Handle → ℕ → List ℕ → Prog df ℕ
    allocate_record fuel free initial_block record_id bytes = do
      let bytes_to_write = if ltb free (length bytes) then free else length bytes
      local_id ← add_to initial_block record_id (take bytes_to_write bytes)
      dirty initial_block.id
      elim (bytes_to_write == length bytes) [
        | true ↦ pure local_id
        | false ↦ do
          chunks_loop fuel record_id initial_block initial_block local_id
              (drop bytes_to_write bytes)
          pure local_id
      ]

    -- The loop of `Add` over the blocks, from `insert_block_id` on.
    unfoldable pub add_loop : ℕ → Record → ℕ → Prog df RowId
    add_loop zero new insert_block_id = λ db. (db, out_of_fuel)
    add_loop (suc fuel) new insert_block_id = do
      record_block ← fetch insert_block_id
      free ← look record_block free_space_for_insert
      elim (ltb 0 free) [
        | true ↦ do
          local_id ← allocate_record fuel free record_block new.id new.record_data
          dirty insert_block_id
          pure (record { data_block_id = insert_block_id; local_id = local_id })
        | false ↦ do
          next ← look record_block next_block_id
          elim (next == 0) [
            | false ↦ add_loop fuel new next
            | true ↦ do
              new_block_id ← allocate_new_block insert_block_id
              change record_block (λ b. set_next_block_id b new_block_id)
              dirty insert_block_id
              add_loop fuel new new_block_id
          ]
      ]

    unfoldable pub add_record : ℕ → Record → Prog df RowId
    add_record fuel new = do
      control_block ← fetch 0
      insert_block_id ← look control_block next_available_records_data_block_id
      add_loop fuel new insert_block_id

    unfoldable pub update : ℕ → RowId → Record → Prog df (Unit {0})
    update fuel row new = do
      rb ← fetch row.data_block_id
      chained ← look rb (λ b. chained_row_id b row.local_id)
      elim (chained.data_block_id == 0) [
        | true ↦ pure tt
        | false ↦ λ db. ignored (remove_row fuel chained db)
      ]
      change rb (λ b. soft_remove b row.local_id)
      free ← look rb free_space_for_insert
      λ db. same_local_id row.local_id (allocate_record fuel free rb new.id new.record_data db)
