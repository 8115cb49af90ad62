-- ===== src/Core/Repository/Sees.antt =====
-- The buffer as a map from blocks to bytes: what fetches, reads and changes do to it.
use pucrs_metadata_db.Base.{
  ℕ, ◌<◌, ◌≡◌, refl, sym, ap, ◌∙◌, arith, ◌==◌, if◌then◌else◌, some, Result, ok, err, panic,
  out_of_fuel,
}
use pucrs_metadata_db.Dbio.Bytes.{Mem}
use pucrs_metadata_db.Dbio.DataBlock.{DataBlock, mem, size}
use pucrs_metadata_db.Dbio.DataFile.{DataFile, datablock_size}
use pucrs_metadata_db.Dbio.DataBuffer.{
  DataBuffer, update_frame, fetch_block, mark_as_dirty, store_block, new_data_buffer,
}
use pucrs_metadata_db.Dbio.DataBuffer.Valid.{view, view_mapped, IsValid}
use pucrs_metadata_db.Dbio.DataBuffer.Fetch.{Fetched, fetch_block-view}
use pucrs_metadata_db.Dbio.DataBuffer.Total.{IsReliable, IsSafe, Succeeds, fetch_block-Succeeds}
use pucrs_metadata_db.Dbio.DataBuffer.Change.{
  new_data_buffer-IsValid, dirtied, change-dirtied, dirtied-IsValid, dirtied-view,
}
use pucrs_metadata_db.Core.Repository.{
  Prog, and_then, Handle, ◌>>=◌, handle_of, fetch, look, stored, change, dirty, ◌>>◌,
}

-- A program that starts with a call that succeeds.
pub bind-ok :
    {df : DataFile} {A B : Type 0} (m : Prog df A) (f : A → Prog df B) (db db' : DataBuffer df)
    (x : A)
    → m db ≡ (db', ok x)
    → (m >>= f) db ≡ f x db'
bind-ok m f db db' x e = ap (λ r. and_then r f) e

pub and_then_assoc :
    {df : DataFile} {A B : Type 0} (c : DataBuffer df × Result (Unit {0})) (k : Prog df A)
    (f : A → Prog df B)
    → and_then (and_then c (λ _. k)) f ≡ and_then c (λ _. k >>= f)
and_then_assoc (db, ok x) k f = refl
and_then_assoc (db, err e) k f = refl
and_then_assoc (db, panic) k f = refl
and_then_assoc (db, out_of_fuel) k f = refl

-- The bytes of every block.
abbrev pub Store : Type 0
Store = ℕ → Mem

abbrev pub put_block : Store → ℕ → Mem → Store
put_block σ id m i = if i == id then m else σ i

-- Block `id` of the store.
abbrev pub block_in : Store → ℕ → DataBlock
block_in σ id = record { id = id; contents = record { len = datablock_size; byte = σ id } }

module _ {df : DataFile} {blocks : ℕ} {Good : df.File → Type 0}
    (reliable : IsReliable df blocks Good) where
  -- A client of the buffer sees these bytes.
  pub record Sees (db : DataBuffer df) (σ : Store) : Type 0 where
    pub valid : IsValid db
    pub safe : IsSafe reliable db
    pub shows : (i : ℕ) → i < blocks → view db i ≡ ok (σ i)

  -- The frame of the handle holds the block of the handle.
  abbrev pub IsHeld : DataBuffer df → Handle → Type 0
  IsHeld db h = db.id_to_frame h.id ≡ some h.frame

  -- A new buffer shows what the file holds.
  pub new_data_buffer-Sees :
      (file : df.File) (size : ℕ) (σ : Store)
      → 0 < size
      → Good file
      → ((i : ℕ) → i < blocks → df.read_block file i ≡ ok (σ i))
      → Sees (new_data_buffer df file size) σ
  unfolding new_data_buffer
  new_data_buffer-Sees file size σ positive good holds =
      let (valid, same) = new_data_buffer-IsValid file size positive in
      record {
        valid = valid;
        safe = record { good = good; inside = λ i k e. cc };
        shows = λ i h. same i ∙ holds i h;
      }

  fetched :
      (db : DataBuffer df) (σ : Store) (id : ℕ) (r : DataBuffer df × Result DataBlock)
      → ((i : ℕ) → i < blocks → view db i ≡ ok (σ i))
      → Fetched db id r
      → Succeeds reliable r
      → (db' : DataBuffer df) × (k : ℕ) × (handle_of id r
          ≡ (db', ok (record { id = id; frame = k })))
        × Sees db' σ
        × (db'.id_to_frame id ≡ some k)
  unfolding handle_of
  fetched db σ id (db', ok b) shows (v, same, (x, y, z, (k, here))) safe = (
    db',
    k,
    rw (here, handle_of),
    record { valid = v; safe = safe; shows = λ i h. same i ∙ shows i h },
    here,
  )
  fetched db σ id (db', err e) shows f s = elim s [ ]
  fetched db σ id (db', panic) shows f s = elim s [ ]
  fetched db σ id (db', out_of_fuel) shows f s = elim s [ ]

  -- Fetching a block of the file succeeds, gives a handle that holds it, and changes no byte.
  pub fetch-Sees :
      (db : DataBuffer df) (σ : Store) (id : ℕ)
      → Sees db σ
      → id < blocks
      → (db' : DataBuffer df) × (k : ℕ) × (fetch id db ≡ (db', ok (record { id = id; frame = k })))
        × Sees db' σ
        × (db'.id_to_frame id ≡ some k)
  unfolding fetch
  fetch-Sees db σ id s h =
      fetched db σ id (fetch_block db id) s.shows (fetch_block-view {db = db} id s.valid)
        (fetch_block-Succeeds reliable db id s.valid s.safe h)

  module _ (db : DataBuffer df) (σ : Store) (h : Handle) (s : Sees db σ) (held : IsHeld db h) where
    small : h.id < blocks
    small = s.safe.inside h.id h.frame held

    contents : (db.frames h.frame).contents ≡ σ h.id
    contents = ground (arith, view_mapped db h.id h.frame held, s.shows h.id small)

    -- A held handle reads what the client sees of its block.
    pub look-Sees :
        {A : Type 0} (f : DataBlock → Result A) → look h f db ≡ (db, f (block_in σ h.id))
    unfolding look
    look-Sees f =
        ap
          (λ (m : Mem).
            (db, f (record { id = h.id; contents = record { len = datablock_size; byte = m } })))
          contents

    store_block-held :
        (m : Mem)
        → store_block db h.id m
          ≡ update_frame db h.frame (record (db.frames h.frame) { contents = m })
    unfolding store_block
    store_block-held m = rw (held, store_block)

    changed :
        (f : DataBlock → Result DataBlock) (b : DataBlock)
        → f (block_in σ h.id) ≡ ok b
        → change h f db ≡ (store_block db h.id (mem b), ok tt)
    unfolding change stored
    changed f b e =
        ap
          (λ (m : Mem).
            stored db h
              (f (record { id = h.id; contents = record { len = datablock_size; byte = m } })))
          contents
        ∙ ap (stored db h) e
        ∙ ap (λ (d : DataBuffer df). (d, ok tt)) (sym (store_block-held (mem b)))

    -- A change through a held handle that is marked as dirty at once succeeds if the change does,
    -- and changes what the client sees of that block and of no other; the same blocks are held.
    pub change-Sees :
        (f : DataBlock → Result DataBlock) (b : DataBlock)
        → f (block_in σ h.id) ≡ ok b
        → (db' : DataBuffer df) × ((change h f >> dirty h.id) db ≡ (db', ok tt))
          × Sees db' (put_block σ h.id (mem b))
          × ((g : Handle) → IsHeld db g → IsHeld db' g)
    unfolding dirty
    change-Sees f b e = (
      dirtied db h.frame (mem b),
      bind-ok (change h f) (λ _. dirty h.id) db (store_block db h.id (mem b)) tt (changed f b e)
          ∙ change-dirtied db h.id h.frame (mem b) held,
      record {
        valid = dirtied-IsValid s.valid h.id h.frame (mem b) held;
        safe = record { good = s.safe.good; inside = s.safe.inside };
        shows =
            λ i x. dirtied-view s.valid h.id h.frame (mem b) held i ∙ ground (arith, s.shows i x);
      },
      λ g x. x,
    )

    -- Marking a held block as dirty changes no byte.
    pub dirty-Sees :
        (db' : DataBuffer df) × (dirty h.id db ≡ (db', ok tt))
        × Sees db' σ
        × ((g : Handle) → IsHeld db g → IsHeld db' g)
    unfolding dirty mark_as_dirty
    dirty-Sees = (
      dirtied db h.frame (db.frames h.frame).contents,
      rw (held, mark_as_dirty),
      record {
        valid = dirtied-IsValid s.valid h.id h.frame (db.frames h.frame).contents held;
        safe = record { good = s.safe.good; inside = s.safe.inside };
        shows = λ i x.
            dirtied-view s.valid h.id h.frame (db.frames h.frame).contents held i
            ∙ ground (arith, s.shows i x, contents);
      },
      λ g x. x,
    )

    -- The same change, with what comes after it.
    pub change-then :
        {A : Type 0} (rest : Prog df A) (f : DataBlock → Result DataBlock) (b : DataBlock)
        → f (block_in σ h.id) ≡ ok b
        → (db' : DataBuffer df) × ((change h f >> (dirty h.id >> rest)) db ≡ rest db')
          × Sees db' (put_block σ h.id (mem b))
          × ((g : Handle) → IsHeld db g → IsHeld db' g)
    change-then rest f b e =
        let (db', q, s', keep) = change-Sees f b e in
        (
          db',
          sym (and_then_assoc (change h f db) (dirty h.id) (λ _. rest))
              ∙ ap (λ r. and_then r (λ _. rest)) q,
          s',
          keep,
        )
