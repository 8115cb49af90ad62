-- ===== src/Core/RecordAllocator/Fitting.antt =====
-- `Add` of src/simplejsondb/core/record_allocator.go for a record that fits in the block that new
-- records go to.
use pucrs_metadata_db.Base.{
  ℕ, suc, ◌<◌, ◌≡◌, refl, sym, ap, ◌∙◌, arith, ==_iff, ==_of_ne, ltb, if◌then◌else◌, List, [], ◌∷◌,
  length, take, ok, lt→ltb,
}
use native.Mathlib.Decide.{ℕ_discrete}
use pucrs_metadata_db.Dbio.Bytes.{peek16}
use pucrs_metadata_db.Dbio.DataBlock.{DataBlock, mem}
use pucrs_metadata_db.Dbio.DataBlock.Laws.{read_uint16-ok}
use pucrs_metadata_db.Dbio.DataFile.{DataFile}
use pucrs_metadata_db.Dbio.DataBuffer.{DataBuffer}
use pucrs_metadata_db.Dbio.DataBuffer.Total.{IsReliable}
use pucrs_metadata_db.Core.ControlBlock.{next_available_records_data_block_id}
use pucrs_metadata_db.Core.Repository.{
  Prog, Handle, pure, and_then, fetch, look, change, dirty, ◌>>=◌, ◌>>◌,
}
use pucrs_metadata_db.Core.Repository.Sees.{
  Store, put_block, block_in, Sees, IsHeld, bind-ok, and_then_assoc, fetch-Sees, look-Sees,
  change-Sees, dirty-Sees,
}
use pucrs_metadata_db.Core.RecordBlock.{RowId, Header, add}
use pucrs_metadata_db.Core.RecordBlock.Reads.{read_record_data-listed}
use pucrs_metadata_db.Core.RecordBlock.Headers.{total_of}
use pucrs_metadata_db.Core.RecordBlock.Methods.{
  free_space_for_insert, read_record_data, chained_row_id,
}
use pucrs_metadata_db.Core.RecordBlock.Sorter.{IsSorter}
use pucrs_metadata_db.Core.RecordBlock.Packed.{Packed}
use pucrs_metadata_db.Core.RecordBlock.AddLaws.{
  Fits, result, add_ok, result-reads, result-points, result-keeps,
}
use pucrs_metadata_db.Core.RecordLoader.{Record, load}
use pucrs_metadata_db.Core.RecordLoader.Holds.{Piece, Holds, Holds-mono, load-Holds}
use pucrs_metadata_db.Core.RecordAllocator.{
  block_of_add, id_of_add, add_to, allocate_record, add_loop, add_record,
}

-- The block that new records go to.
abbrev pub insert_block : Store → ℕ
insert_block σ = peek16 (σ 0) 0

take_all : {A : Type 0} (xs : List A) → take (length xs) xs ≡ xs
take_all [] = refl
take_all (x ∷ xs) = ap (λ (ys : List _). x ∷ ys) (take_all xs)

block_in-put :
    (σ : Store) (b : DataBlock)
    → b.contents.len ≡ 4096
    → block_in (put_block σ b.id (mem b)) b.id ≡ b
block_in-put σ b whole = rw ((==_iff b.id b.id).1 refl, ← whole)

module _ {df : DataFile} {blocks : ℕ} {Good : df.File → Type 0}
    (reliable : IsReliable df blocks Good) {sort : List Header → List Header}
    (sorter : IsSorter sort) (σ : Store) where
  module _ (db : DataBuffer df) (h : Handle) (s : Sees reliable db σ) (held : IsHeld reliable db h)
      (id : ℕ) (bytes : List ℕ) (v : Packed (block_in σ h.id))
      (f : Fits (block_in σ h.id) id bytes) where
    -- The store after the record was added to the block.
    abbrev after : Store
    after = put_block σ h.id (mem (result sorter v id bytes f))

    add_to-then :
        {A : Type 0} (k : ℕ → Prog df A)
        → (db' : DataBuffer df) × ((add_to sort h id bytes >>= λ l. dirty h.id >> k l) db
            ≡ k (total_of (σ h.id)) db')
          × Sees reliable db' after
          × ((g : Handle) → IsHeld reliable db g → IsHeld reliable db' g)
    unfolding add_to block_of_add id_of_add
    add_to-then k =
        let done = add_ok sorter v id bytes f in
        let new = change h (λ b. block_of_add (add sort b id bytes)) in
        let id_read = look h (λ b. id_of_add (add sort b id bytes)) in
        let local = total_of (σ h.id) in
        let read =
          look-Sees reliable db σ h s held (λ b. id_of_add (add sort b id bytes))
          ∙ ap (λ r. (db, id_of_add r)) done in
        let (db', e, s', keep) =
          change-Sees reliable db σ h s held (λ b. block_of_add (add sort b id bytes))
            (result sorter v id bytes f) (ap block_of_add done) in
        (
          db',
          ap (λ r. and_then r (λ l. dirty h.id >> k l))
                (bind-ok id_read (λ l. new >> pure l) db db local read)
              ∙ and_then_assoc (new db) (pure local) (λ l. dirty h.id >> k l)
              ∙ sym (and_then_assoc (new db) (dirty h.id) (λ _. k local))
              ∙ ap (λ r. and_then r (λ _. k local)) e,
          s',
          keep,
        )

    -- All bytes of the record go to this block.
    allocate_record-Sees :
        (fuel : ℕ)
        → (db' : DataBuffer df) × (allocate_record sort fuel f.free h id bytes db
            ≡ (db', ok (total_of (σ h.id))))
          × Sees reliable db' after
          × ((g : Handle) → IsHeld reliable db g → IsHeld reliable db' g)
    unfolding allocate_record
    allocate_record-Sees fuel =
        let all : (if ltb f.free (length bytes) then f.free else length bytes) ≡ length bytes =
          ground (arith, f.enough) in
        let (db', e, s', keep) = add_to-then pure in
        (db', rw (all, take_all bytes, (==_iff (length bytes) (length bytes)).1 refl) e, s', keep)

  module _ (new : Record) (inside : insert_block σ < blocks)
      (v : Packed (block_in σ (insert_block σ)))
      (f : Fits (block_in σ (insert_block σ)) new.id new.record_data) where
    abbrev pub new_row : RowId
    new_row = record { data_block_id = insert_block σ; local_id = total_of (σ (insert_block σ)) }

    -- The store after `Add`.
    abbrev pub with_record : Store
    with_record = put_block σ (insert_block σ) (mem (result sorter v new.id new.record_data f))

    add_loop-Sees :
        (fuel : ℕ) (db : DataBuffer df)
        → Sees reliable db σ
        → (db' : DataBuffer df) × (add_loop sort (suc fuel) new (insert_block σ) db
            ≡ (db', ok new_row))
          × Sees reliable db' with_record
    unfolding add_loop
    add_loop-Sees fuel db s =
        let i = insert_block σ in
        let (db₁, frame, e₁, s₁, held) = fetch-Sees reliable db σ i s inside in
        let h : Handle = record { id = i; frame = frame } in
        let free =
          look-Sees reliable db₁ σ h s₁ held free_space_for_insert
          ∙ ap (λ r. (db₁, r)) f.free_said in
        let (db₂, e₂, s₂, keep) =
          allocate_record-Sees db₁ h s₁ held new.id new.record_data v f fuel in
        let (db₃, e₃, s₃, _) = dirty-Sees reliable db₂ with_record h s₂ (keep h held) in
        (
          db₃,
          bind-ok (fetch i) _ db db₁ h e₁
              ∙ bind-ok (look h free_space_for_insert) _ db₁ db₁ f.free free
              ∙ rw (lt→ltb 0 f.free f.free_positive) (
                  bind-ok (allocate_record sort fuel f.free h new.id new.record_data) _ db₁ db₂
                    new_row.local_id e₂
                  ∙ bind-ok (dirty i) (λ _. pure new_row) db₂ db₃ tt e₃),
          s₃,
        )

    pub add_record-Sees :
        (fuel : ℕ) (db : DataBuffer df)
        → Sees reliable db σ
        → (db' : DataBuffer df) × (add_record sort (suc fuel) new db ≡ (db', ok new_row))
          × Sees reliable db' with_record
    unfolding add_record next_available_records_data_block_id
    add_record-Sees fuel db s =
        let (db₁, frame, e₁, s₁, held) = fetch-Sees reliable db σ 0 s (omega arith) in
        let h : Handle = record { id = 0; frame = frame } in
        let next =
          look-Sees reliable db₁ σ h s₁ held next_available_records_data_block_id
          ∙ ap (λ r. (db₁, r)) (read_uint16-ok (block_in σ 0) 0 (omega arith)) in
        let (db₂, e₂, s₂) = add_loop-Sees fuel db₁ s₁ in
        (
          db₂,
          bind-ok (fetch 0) _ db db₁ h e₁
              ∙ bind-ok (look h next_available_records_data_block_id) _ db₁ db₁ (insert_block σ)
                  next
              ∙ e₂,
          s₂,
        )

    same_block : block_in with_record (insert_block σ) ≡ result sorter v new.id new.record_data f
    same_block = rw ((==_iff (insert_block σ) (insert_block σ)).1 refl)

    pub new-Piece :
        Piece blocks with_record new_row new.record_data
          (record { data_block_id = 0; local_id = 0 })
    new-Piece = record {
      inside = inside;
      reads = rw same_block (result-reads sorter v new.id new.record_data f);
      points = rw same_block (result-points sorter v new.id new.record_data f);
    }

    pub Piece-kept :
        (r : RowId) (bytes : List ℕ) (next : RowId)
        → Piece blocks σ r bytes next
        → Piece blocks with_record r bytes next
    Piece-kept r bytes next p = elim (ℕ_discrete r.data_block_id (insert_block σ)) [
      | no ne ↦ record {
        inside = p.inside;
        reads = rw (==_of_ne r.data_block_id (insert_block σ) ne) p.reads;
        points = rw (==_of_ne r.data_block_id (insert_block σ) ne) p.points;
      }
      | yes e ↦
          let reads : read_record_data (block_in σ (insert_block σ)) r.local_id ≡ ok bytes =
            ap (λ k. read_record_data (block_in σ k) r.local_id) (sym e) ∙ p.reads in
          let points : chained_row_id (block_in σ (insert_block σ)) r.local_id ≡ ok next =
            ap (λ k. chained_row_id (block_in σ k) r.local_id) (sym e) ∙ p.points in
          let listed : r.local_id < total_of (σ (insert_block σ)) =
            read_record_data-listed (block_in σ (insert_block σ)) refl r.local_id bytes reads in
          let (same_reads, same_points) =
            result-keeps sorter v new.id new.record_data f r.local_id listed in
          record {
            inside = p.inside;
            reads =
                ap (λ k. read_record_data (block_in with_record k) r.local_id) e
                ∙ rw same_block (same_reads ∙ reads);
            points =
                ap (λ k. chained_row_id (block_in with_record k) r.local_id) e
                ∙ rw same_block (same_points ∙ points);
          }
    ]

    -- Let the block that new records go to be inside the file, and have no removed record and no gap, let the
    -- record be new to it, and fit there. Then `Add` adds the record, and the data at every row that held some stays as it was,
    -- over all its chained rows: what could be loaded before can be loaded after.
    pub add_record_keeps :
        (fuel n id : ℕ) (row : RowId) (bytes : List ℕ) (db : DataBuffer df)
        → Sees reliable db σ
        → Holds blocks σ n row bytes
        → (db' db'' : DataBuffer df) × (new_row : RowId) × (add_record sort (suc fuel) new db
            ≡ (db', ok new_row))
          × (load n id row db' ≡ (db'', ok (record { id = id; record_data = bytes })))
    add_record_keeps fuel n id row bytes db s h =
        let (db', e, s') = add_record-Sees fuel db s in
        let (db'', e', _) =
          load-Holds reliable with_record n n id row bytes db' s' (Holds-mono Piece-kept h)
            (omega arith) in
        (db', db'', new_row, e, e')
