-- ===== src/Core/RecordLoader/Holds.antt =====
-- What `Load` of src/simplejsondb/core/record_loader.go finds: a store holds data at a row, as the
-- pieces of a chain of rows.
use pucrs_metadata_db.Base.{
  ℕ, zero, suc, ◌≤◌, ◌<◌, ◌≡◌, ◌≢◌, ap, ◌∙◌, arith, ==_of_ne, List, ◌++◌, ok,
}
use mathlib.Core.List.{append_assoc}
use pucrs_metadata_db.Dbio.DataFile.{DataFile}
use pucrs_metadata_db.Dbio.DataBuffer.{DataBuffer}
use pucrs_metadata_db.Dbio.DataBuffer.Total.{IsReliable}
use pucrs_metadata_db.Core.Repository.{Prog, Handle, pure, fetch, look, ◌>>=◌}
use pucrs_metadata_db.Core.Repository.Sees.{Store, block_in, Sees, bind-ok, fetch-Sees, look-Sees}
use pucrs_metadata_db.Core.RecordBlock.{RowId}
use pucrs_metadata_db.Core.RecordBlock.Methods.{read_record_data, chained_row_id}
use pucrs_metadata_db.Core.RecordLoader.{Record, chain_loop, load}

-- The row is in the first `blocks` blocks, and holds these bytes with a pointer to that row.
pub record Piece (blocks : ℕ) (σ : Store) (row : RowId) (bytes : List ℕ) (next : RowId)
    : Type 0 where
  pub inside : row.data_block_id < blocks
  pub reads : read_record_data (block_in σ row.data_block_id) row.local_id ≡ ok bytes
  pub points : chained_row_id (block_in σ row.data_block_id) row.local_id ≡ ok next

-- The data at a row, over `n` chained rows.
pub data Holds (blocks : ℕ) (σ : Store) : ℕ → RowId → List ℕ → Type 0 where
  last :
      (row : RowId) (bytes : List ℕ) (next : RowId)
      → Piece blocks σ row bytes next
      → next.data_block_id ≡ 0
      → Holds blocks σ 0 row bytes
  chained :
      (n : ℕ) (row : RowId) (bytes : List ℕ) (next : RowId) (rest : List ℕ)
      → Piece blocks σ row bytes next
      → next.data_block_id ≢ 0
      → Holds blocks σ n next rest
      → Holds blocks σ (suc n) row (bytes ++ rest)

-- A store in which every piece is still there holds the same data.
pub Holds-mono :
    {blocks : ℕ} {σ τ : Store} {n : ℕ} {row : RowId} {bytes : List ℕ}
    → ((r : RowId) (b : List ℕ) (next : RowId) → Piece blocks σ r b next → Piece blocks τ r b next)
    → Holds blocks σ n row bytes
    → Holds blocks τ n row bytes
Holds-mono keep (last row bytes next p z) = last row bytes next (keep row bytes next p) z
Holds-mono keep (chained n row bytes next rest p z h) =
    chained n row bytes next rest (keep row bytes next p) z (Holds-mono keep h)

module _ {df : DataFile} {blocks : ℕ} {Good : df.File → Type 0}
    (reliable : IsReliable df blocks Good) (σ : Store) where
  -- The three calls that read a piece, whatever comes after.
  Piece-Sees :
      {A : Type 0} (row : RowId) (bytes : List ℕ) (next : RowId) (k : List ℕ → RowId → Prog df A)
      (db : DataBuffer df)
      → Sees reliable db σ
      → Piece blocks σ row bytes next
      → (db' : DataBuffer df) × ((fetch row.data_block_id >>= λ rb.
              look rb (λ b. read_record_data b row.local_id) >>= λ x.
              look rb (λ b. chained_row_id b row.local_id) >>= λ y. k x y)
            db
          ≡ k bytes next db')
        × Sees reliable db' σ
  Piece-Sees row bytes next k db s p =
      let (db', frame, e, s', held) = fetch-Sees reliable db σ row.data_block_id s p.inside in
      let rb : Handle = record { id = row.data_block_id; frame = frame } in
      let read =
        look-Sees reliable db' σ rb s' held (λ b. read_record_data b row.local_id)
        ∙ ap (λ r. (db', r)) p.reads in
      let point =
        look-Sees reliable db' σ rb s' held (λ b. chained_row_id b row.local_id)
        ∙ ap (λ r. (db', r)) p.points in
      (
        db',
        bind-ok (fetch row.data_block_id) _ db db' rb e
            ∙ bind-ok (look rb (λ b. read_record_data b row.local_id)) _ db' db' bytes read
            ∙ bind-ok (look rb (λ b. chained_row_id b row.local_id)) _ db' db' next point,
        s',
      )

  -- What `Load` does with the data.
  abbrev finish : ℕ → Prog df (List ℕ) → Prog df Record
  finish id loaded = loaded >>= λ whole. pure (record { id = id; record_data = whole })

  chain_loop-end :
      (fuel : ℕ) (row : RowId) (buff : List ℕ) (db : DataBuffer df)
      → row.data_block_id ≡ 0
      → chain_loop fuel row buff db ≡ (db, ok buff)
  unfolding chain_loop
  chain_loop-end zero row buff db z = rw (z, chain_loop)
  chain_loop-end (suc fuel) row buff db z = rw (z, chain_loop)

  chain_loop-Holds :
      (n fuel : ℕ) (row : RowId) (buff bytes : List ℕ) (db : DataBuffer df)
      → Sees reliable db σ
      → row.data_block_id ≢ 0
      → Holds blocks σ n row bytes
      → n < fuel
      → (db' : DataBuffer df) × (chain_loop fuel row buff db ≡ (db', ok (buff ++ bytes)))
        × Sees reliable db' σ
  unfolding chain_loop
  chain_loop-Holds n zero row buff bytes db s ne h lt = absurd (omega arith)
  chain_loop-Holds n (suc fuel) row buff bytes db s ne (last _ _ next p z) lt =
      let (db', e, s') = Piece-Sees row bytes next (λ x y. chain_loop fuel y (buff ++ x)) db s p in
      (db', rw (==_of_ne _ _ ne) (e ∙ chain_loop-end fuel next (buff ++ bytes) db' z), s')
  chain_loop-Holds n (suc fuel) row buff bytes db s ne (chained m _ piece next rest p z h) lt =
      let (db', e, s') = Piece-Sees row piece next (λ x y. chain_loop fuel y (buff ++ x)) db s p in
      let (db'', e', s'') =
        chain_loop-Holds m fuel next (buff ++ piece) rest db' s' z h (omega arith) in
      (
        db'',
        rw (==_of_ne _ _ ne)
            (e ∙ e' ∙ ap (λ (x : List ℕ). (db'', ok x)) (append_assoc buff piece rest)),
        s'',
      )

  -- If the store that the buffer shows holds data at a row, over at most as many chained rows as there
  -- is fuel, then `Load` of that row succeeds and gives that data, and no byte changes.
  pub load-Holds :
      (n fuel id : ℕ) (row : RowId) (bytes : List ℕ) (db : DataBuffer df)
      → Sees reliable db σ
      → Holds blocks σ n row bytes
      → n ≤ fuel
      → (db' : DataBuffer df) × (load fuel id row db
          ≡ (db', ok (record { id = id; record_data = bytes })))
        × Sees reliable db' σ
  unfolding load
  load-Holds n fuel id row bytes db s (last _ _ next p z) lt =
      let (db', e, s') =
        Piece-Sees row bytes next (λ x y. finish id (chain_loop fuel y x)) db s p in
      (
        db',
        e
            ∙ bind-ok (chain_loop fuel next bytes) _ db' db' bytes
                (chain_loop-end fuel next bytes db' z),
        s',
      )
  load-Holds n fuel id row bytes db s (chained m _ piece next rest p z h) lt =
      let (db', e, s') =
        Piece-Sees row piece next (λ x y. finish id (chain_loop fuel y x)) db s p in
      let (db'', e', s'') = chain_loop-Holds m fuel next piece rest db' s' z h (omega arith) in
      (db'', e ∙ bind-ok (chain_loop fuel next piece) _ db' db'' (piece ++ rest) e', s'')
