-- ===== src/SimpleJsonDb.antt =====
-- src/simplejsondb/simple_json_db.go: the database object. Its buffer is the state of the programs; the
-- index and encoding/json are parameters.
pub mod Actions
pub mod Opening
mod Tests
use pucrs_metadata_db.Base.{ℕ, List, Result, ok, err, panic, out_of_fuel}
use pucrs_metadata_db.Dbio.DataFile.{DataFile}
use pucrs_metadata_db.Dbio.DataBuffer.{DataBuffer, sync, new_data_buffer}
use pucrs_metadata_db.Core.RecordBlock.{Header}
use pucrs_metadata_db.Core.RecordLoader.{Record}
use pucrs_metadata_db.Core.Repository.{Prog, pure, lift, ◌>>=◌, ◌>>◌}
use pucrs_metadata_db.Core.DataBlocksMap.{format_data_file_if_needed}
use pucrs_metadata_db.SimpleJsonDb.Actions
use pucrs_metadata_db.SimpleJsonDb.Actions.{Uint32Index, Json}

abbrev pub buffer_size : ℕ
buffer_size = 256

-- The buffer of a new database object, once the file is formatted.
unfoldable pub opened : {df : DataFile} → DataBuffer df × Result (Unit {0}) → Result (DataBuffer df)
opened {df} (db, ok x) = ok (new_data_buffer df db.file buffer_size)
opened (db, err e) = err e
opened (db, panic) = panic
opened (db, out_of_fuel) = out_of_fuel

-- `order` is the order in which `Sync` visits its map.
unfoldable pub new_with_data_file : (df : DataFile) → df.File → List ℕ → Result (DataBuffer df)
new_with_data_file df data_file order = opened (format_data_file_if_needed df data_file order)

module _ {df : DataFile} (index : Uint32Index df) (json : Json)
    (sort : List Header → List Header) where
  unfoldable pub insert_record : ℕ → ℕ → List ℕ → Prog df (Unit {0})
  insert_record fuel id text = do
    compacted ← lift (json.compact text)
    Actions.insert index sort fuel (record { id = id; record_data = compacted })

  unfoldable pub update_record : ℕ → ℕ → List ℕ → Prog df (Unit {0})
  update_record fuel id text = do
    compacted ← lift (json.compact text)
    Actions.update index sort fuel (record { id = id; record_data = compacted })

  unfoldable pub delete_record : ℕ → ℕ → Prog df (Unit {0})
  delete_record fuel id = Actions.delete index fuel id

  unfoldable pub find_record : ℕ → ℕ → Prog df Record
  find_record fuel id = Actions.find index fuel id

  unfoldable pub search_records : ℕ → List ℕ → List ℕ → Prog df (List Record)
  search_records fuel key value = Actions.search index json fuel key value

-- `close_file` is `Close` of the file.
unfoldable pub close : {df : DataFile} → (df.File → Result (Unit {0})) → List ℕ → Prog df (Unit {0})
close close_file order = do (λ db. sync db order); λ db. (db, close_file db.file)
