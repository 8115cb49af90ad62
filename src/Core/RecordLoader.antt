-- ===== src/Core/RecordLoader.antt =====
-- src/simplejsondb/core/record_loader.go: the data of a record, over its chained rows.
pub mod Holds
use pucrs_metadata_db.Base.{ℕ, zero, suc, ◌==◌, if◌then◌else◌, List, ◌++◌, out_of_fuel}
use pucrs_metadata_db.Dbio.DataFile.{DataFile}
use pucrs_metadata_db.Core.RecordBlock.{RowId}
use pucrs_metadata_db.Core.RecordBlock.Methods.{read_record_data, chained_row_id}
use pucrs_metadata_db.Core.Repository.{Prog, pure, fetch, look, ◌>>=◌}

pub record Record : Type 0 where
  pub id : ℕ
  pub record_data : List ℕ

module _ {df : DataFile} where
  -- The loop over the chained rows, each from its block. Nothing in the source bounds it: a chain that
  -- comes back to one of its rows does not end, and uses up any fuel.
  unfoldable pub chain_loop : ℕ → RowId → List ℕ → Prog df (List ℕ)
  chain_loop zero row buff = if row.data_block_id == 0 then pure buff else (λ db. (db, out_of_fuel))
  chain_loop (suc fuel) row buff = if row.data_block_id == 0 then pure buff else (do
    rb ← fetch row.data_block_id
    chained_data ← look rb (λ b. read_record_data b row.local_id)
    next ← look rb (λ b. chained_row_id b row.local_id)
    chain_loop fuel next (buff ++ chained_data))

  unfoldable pub load : ℕ → ℕ → RowId → Prog df Record
  load fuel id row = do
    rb ← fetch row.data_block_id
    first ← look rb (λ b. read_record_data b row.local_id)
    chained ← look rb (λ b. chained_row_id b row.local_id)
    whole ← chain_loop fuel chained first
    pure (record { id = id; record_data = whole })
