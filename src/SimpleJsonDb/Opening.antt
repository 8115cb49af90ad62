-- ===== src/SimpleJsonDb/Opening.antt =====
-- Opening and closing a database, src/simplejsondb/simple_json_db.go: what is on the file.
use pucrs_metadata_db.Base.{
  ℕ, ◌<◌, ◌≡◌, ◌≢◌, refl, sym, ap, ◌∙◌, arith, some, List, get_elem?, Result, ok,
}
use pucrs_metadata_db.Dbio.Bytes.{Mem, peek16}
use pucrs_metadata_db.Dbio.DataFile.{DataFile}
use pucrs_metadata_db.Dbio.DataBuffer.{
  DataBuffer, fetch_block, fetch_miss, fill_free, fill, fill_with, filled, free_loop,
  new_data_buffer,
}
use pucrs_metadata_db.Dbio.DataBuffer.Total.{IsReliable}
use pucrs_metadata_db.Dbio.DataBuffer.Sync.{sync_saves}
use pucrs_metadata_db.Dbio.DataBuffer.Saved.{sync-Succeeds}
use pucrs_metadata_db.Core.Repository.{fetch, handle_of}
use pucrs_metadata_db.Core.Repository.Sees.{Store, Sees, new_data_buffer-Sees}
use pucrs_metadata_db.Core.DataBlocksMap.{format_data_file_if_needed}
use pucrs_metadata_db.Core.DataBlocksMap.Spec.{IsByteStore}
use pucrs_metadata_db.Core.DataBlocksMap.Format.{
  IsFormatted, stops_after_fetch, format_if_needed-IsFormatted,
}
use pucrs_metadata_db.SimpleJsonDb.{buffer_size, opened, new_with_data_file, close}

-- `order` lists the blocks that the buffer holds.
pub record IsOrder {df : DataFile} (db : DataBuffer df) (order : List ℕ) : Type 0 where
  pub every : (i k : ℕ) → db.id_to_frame i ≡ some k → (q : ℕ) × (get_elem? order q ≡ some i)
  pub held : (q i : ℕ) → get_elem? order q ≡ some i → (k : ℕ) × (db.id_to_frame i ≡ some k)

module _ {df : DataFile} {blocks : ℕ} {Good : df.File → Type 0}
    (reliable : IsReliable df blocks Good) (large : 2 < blocks) where
  -- The first fetch of a new buffer does not write.
  first_fetch :
      (file : df.File) (m : Mem)
      → df.read_block file 0 ≡ ok m
      → (fetch 0 (new_data_buffer df file 5)).0.file ≡ file
  unfolding fetch handle_of fetch_block fetch_miss fill_free fill fill_with filled free_loop
      new_data_buffer
  first_fetch file m h = rw h refl

  -- The bytes that a good file holds.
  module _ (file : df.File) (σ : Store) (good : Good file)
      (holds : (i : ℕ) → i < blocks → df.read_block file i ≡ ok (σ i)) (order : List ℕ) where
    abbrev formatter : DataBuffer df
    formatter = new_data_buffer df file 5

    formatter-Sees : Sees reliable formatter σ
    formatter-Sees = new_data_buffer-Sees reliable file 5 σ (omega arith) good holds

    -- Let a file that serves its blocks, at least three, hold bytes, of which block 0 names no block for
    -- new records, and let `Sync` of the formatter visit the blocks that its buffer holds, in any
    -- order. Then `NewWithDataFile` succeeds with a database that shows a formatted file: block 0 has
    -- its pointers, the blocks 0 to 3 are in use, as are those that were, and the blocks from 3 on are
    -- as before.
    pub new_with_data_file-IsFormatted :
        IsByteStore σ
        → peek16 (σ 0) 0 ≡ 0
        → IsOrder (format_data_file_if_needed df file order).0 order
        → (db : DataBuffer df) × (τ : Store) × (new_with_data_file df file order ≡ ok db)
          × Sees reliable db τ
          × IsFormatted σ τ
    unfolding new_with_data_file format_data_file_if_needed opened
    new_with_data_file-IsFormatted b zero_next o =
        let (db', τ, e, s, saved, f) =
          format_if_needed-IsFormatted reliable large formatter σ formatter-Sees order b zero_next
            o.every o.held in
        (
          new_data_buffer df db'.file buffer_size,
          τ,
          ap opened e,
          new_data_buffer-Sees reliable db'.file buffer_size τ (omega arith) s.safe.good saved,
          f,
        )

    -- A file in which block 0 names a block for new records is opened as it is.
    opened_again :
        peek16 (σ 0) 0 ≢ 0
        → (db : DataBuffer df) × (new_with_data_file df file order ≡ ok db) × Sees reliable db σ
    unfolding new_with_data_file format_data_file_if_needed opened
    opened_again ne =
        let (db', frame, e, e', s) =
          stops_after_fetch reliable large formatter σ formatter-Sees order ne in
        let same : db'.file ≡ file =
          ap (λ r. r.0.file) (sym e') ∙ first_fetch file (σ 0) (holds 0 (omega arith)) in
        (
          new_data_buffer df db'.file buffer_size,
          ap opened e,
          new_data_buffer-Sees reliable db'.file buffer_size σ (omega arith) s.safe.good
              (λ i x. ap (λ f. df.read_block f i) same ∙ holds i x),
        )

  -- Let a database over a file that serves its blocks, at least three, show bytes of which block 0 names a
  -- block for new records, and let `Sync` visit the blocks that its buffer holds, in any order. Then
  -- `Close` succeeds with the sync of the buffer and returns what closing the file returns, and
  -- `NewWithDataFile` on the file as it was left succeeds, with whatever order, with a database that
  -- shows the same bytes.
  pub new_with_data_file-close :
      (db : DataBuffer df) (σ : Store) (order order' : List ℕ)
      (close_file : df.File → Result (Unit {0}))
      → Sees reliable db σ
      → peek16 (σ 0) 0 ≢ 0
      → IsOrder db order
      → (db' db'' : DataBuffer df) × (close close_file order db ≡ (db', close_file db'.file))
        × (new_with_data_file df db'.file order' ≡ ok db'')
        × Sees reliable db'' σ
  unfolding close
  new_with_data_file-close db σ order order' close_file s named o =
      let (db', e, safe) = sync-Succeeds reliable order db s.safe o.held in
      let saved = sync_saves order s.valid o.every db' e in
      let (db'', again, s'') =
        opened_again db'.file σ safe.good (λ i x. saved i ∙ s.shows i x) order' named in
      (db', db'', rw e refl, again, s'')
