-- ===== src/SimpleJsonDb/Actions.antt =====
-- src/simplejsondb/actions: what a request does with the index and the records.
use pucrs_metadata_db.Base.{
  ℕ, ◌==◌, ◌&&◌, Bool, true, false, if◌then◌else◌, Option, none, some, List, [], ◌∷◌, ◌++◌, Result,
  ok, err, panic, out_of_fuel, must, key_exists,
}
use pucrs_metadata_db.Dbio.DataFile.{DataFile}
use pucrs_metadata_db.Dbio.DataBuffer.{DataBuffer}
use pucrs_metadata_db.Core.RecordBlock.{RowId, Header}
use pucrs_metadata_db.Core.RecordLoader.{Record, load}
use pucrs_metadata_db.Core.RecordAllocator
use pucrs_metadata_db.Core.RecordAllocator.{add_record}
use pucrs_metadata_db.Core.RecordAllocator.BlocksList.{remove_row}
use pucrs_metadata_db.Core.Repository.{Prog, pure, lift, ◌>>=◌, ◌>>◌, fetch, dirty}

-- The interface `Uint32Index` of src/simplejsondb/core/uint32_index.go, over a buffer, without `Init` and
-- `Dump`, which the requests do not call. The iterator that
-- `All` is given runs on the buffer too, and passes on what it has collected.
pub record Uint32Index (df : DataFile) : Type 1 where
  pub find : ℕ → Prog df RowId
  pub insert : ℕ → RowId → Prog df (Unit {0})
  pub delete : ℕ → Prog df (Unit {0})
  pub all : (A : Type 0) → (ℕ → RowId → A → Prog df A) → A → Prog df A

-- What is used of encoding/json, on the bytes of a text: `json.Compact`, the object that
-- `json.Unmarshal` reads, by its keys, and whether a value is a given string.
pub record Json : Type 1 where
  pub Value : Type 0
  pub compact : List ℕ → Result (List ℕ)
  pub parse : List ℕ → Result (List ℕ → Option Value)
  pub is_string : Value → List ℕ → Bool

-- `rowID, _ := index.Find(id)`: the zero row ID if there is an error.
unfoldable pub row_or_zero :
    {df : DataFile} → DataBuffer df × Result RowId → DataBuffer df × Result RowId
row_or_zero (db, ok row) = (db, ok row)
row_or_zero (db, err e) = (db, ok (record { data_block_id = 0; local_id = 0 }))
row_or_zero (db, panic) = (db, panic)
row_or_zero (db, out_of_fuel) = (db, out_of_fuel)

module _ {df : DataFile} (index : Uint32Index df) where
  unfoldable pub find : ℕ → ℕ → Prog df Record
  find fuel id = do row ← index.find id; load fuel id row

  unfoldable pub delete : ℕ → ℕ → Prog df (Unit {0})
  delete fuel id = do row ← index.find id; remove_row fuel row; index.delete id

  module _ (sort : List Header → List Header) where
    -- `Insert` after the lookup of the ID.
    unfoldable pub add_new : ℕ → Record → RowId → Prog df (Unit {0})
    add_new fuel new row = elim (row.data_block_id == 0 && row.local_id == 0) [
      | false ↦ lift (err key_exists)
      | true ↦ do row ← add_record sort fuel new; index.insert new.id row
    ]

    unfoldable pub insert : ℕ → Record → Prog df (Unit {0})
    insert fuel new = do
      cb ← fetch 0
      dirty cb.id
      row ← (λ db. row_or_zero (index.find new.id db))
      add_new fuel new row

    unfoldable pub update : ℕ → Record → Prog df (Unit {0})
    update fuel new = do row ← index.find new.id; RecordAllocator.update sort fuel row new

  module _ (json : Json) where
    -- The record is kept if its object has the key with the string as its value.
    unfoldable pub kept : List ℕ → List ℕ → (List ℕ → Option json.Value) → Bool
    kept key value parsed = elim (parsed key) [ none ↦ false | some v ↦ json.is_string v value ]

    -- The iterator of `Search`: it panics on an error.
    unfoldable pub visit : ℕ → List ℕ → List ℕ → ℕ → RowId → List Record → Prog df (List Record)
    visit fuel key value id row results = do
      loaded ← (λ db. let (db', r) = load fuel id row db in (db', must r))
      parsed ← lift (must (json.parse loaded.record_data))
      pure (if kept key value parsed then results ++ (loaded ∷ []) else results)

    unfoldable pub search : ℕ → List ℕ → List ℕ → Prog df (List Record)
    search fuel key value = index.all (List Record) (visit fuel key value) []
