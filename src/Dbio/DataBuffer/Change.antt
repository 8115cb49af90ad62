-- ===== src/Dbio/DataBuffer/Change.antt =====
-- A client's change of a block that is in the buffer.
use pucrs_metadata_db.Base.{
  fun_ext, ◌<◌, ℕ, ◌≡◌, refl, ap, ◌∙◌, true, ◌==◌, if◌then◌else◌, none, some, arith, Result, ok,
  panic, Option-cases, inl, inr,
}
use pucrs_metadata_db.Dbio.Bytes.{Mem}
use pucrs_metadata_db.Dbio.DataFile.{DataFile}
use pucrs_metadata_db.Dbio.DataBuffer.{
  Frames, new_data_buffer, DataBuffer, update_frame, mark_as_dirty, store_block,
}
use pucrs_metadata_db.Dbio.DataBuffer.Valid.{view, IsValid, count-blank, count_same}

module _ {df : DataFile} where
  -- A client's change of a block: it writes through `Data` and marks the block as dirty.
  abbrev pub change : DataBuffer df → ℕ → Mem → DataBuffer df × Result (Unit {0})
  change db id m = mark_as_dirty (store_block db id m) id

  abbrev pub dirtied : DataBuffer df → ℕ → Mem → DataBuffer df
  dirtied db k m =
      update_frame db k
        (record { in_use = (db.frames k).in_use; referenced = true; is_dirty = true; contents = m })

  pub change-dirtied :
      (db : DataBuffer df) (id k : ℕ) (m : Mem)
      → db.id_to_frame id ≡ some k
      → change db id m ≡ (dirtied db k m, ok tt)
  unfolding mark_as_dirty store_block
  change-dirtied db id k m here =
      rw (here, store_block)
        (rw (here, mark_as_dirty)
          (ap (λ (fs : Frames). (record db { frames = fs }, ok tt)) (fun_ext λ i. ground arith)))

  module _ {db : DataBuffer df} (v : IsValid db) (id k : ℕ) (m : Mem)
      (here : db.id_to_frame id ≡ some k) where
    pub dirtied-IsValid : IsValid (dirtied db k m)
    dirtied-IsValid = record {
      positive = v.positive;
      fits = v.fits;
      injective = v.injective;
      frame_small = v.frame_small;
      frame_in_use = λ i j h. ground (arith, v.frame_in_use i j h);
      counted =
          count_same db.size 0 (dirtied db k m).frames db.frames (λ j. ground arith) ∙ v.counted;
      victims_mapped = v.victims_mapped;
      victims_once = v.victims_once;
      clean = λ i j h d. ground (arith, v.clean i j h);
    }

    pub dirtied-view : (i : ℕ) → view (dirtied db k m) i ≡ (if i == id then ok m else view db i)
    dirtied-view i = elim (Option-cases (db.id_to_frame i)) [
      | inl h ↦ ground (arith, ap db.id_to_frame {x = i} {y = id})
      | inr (j, h) ↦ ground (arith, v.injective i id j h, ap db.id_to_frame {x = i} {y = id})
    ]

    -- Changing a block that is in a valid buffer succeeds, keeps the buffer valid, and changes what
    -- a client sees of that block to the new contents, and of no other block.
    pub change-view :
        let (db', r) = change db id m in
        (r ≡ ok tt) × IsValid db' × ((i : ℕ) → view db' i ≡ (if i == id then ok m else view db i))
    change-view = rw (change-dirtied db id k m here) (refl, dirtied-IsValid, dirtied-view)

  -- A block that is not in the buffer cannot be marked: the call panics.
  pub mark_as_dirty_absent :
      (db : DataBuffer df) (id : ℕ) → db.id_to_frame id ≡ none → mark_as_dirty db id ≡ (db, panic)
  unfolding mark_as_dirty
  mark_as_dirty_absent db id absent = rw (absent, mark_as_dirty)

  -- The buffer that `NewDataBuffer` makes is valid if it has a frame, and shows the file.
  pub new_data_buffer-IsValid :
      (file : df.File) (size : ℕ)
      → 0 < size
      → IsValid (new_data_buffer df file size)
        × ((i : ℕ) → view (new_data_buffer df file size) i ≡ df.read_block file i)
  unfolding new_data_buffer
  new_data_buffer-IsValid file size h = (
    record {
      positive = h;
      fits = omega arith;
      injective = λ i j k e. cc;
      frame_small = λ i k e. cc;
      frame_in_use = λ i k e. cc;
      counted = count-blank size 0;
      victims_mapped = λ p v e. cc;
      victims_once = λ p q v e. cc;
      clean = λ i k e. cc;
    },
    λ i. refl,
  )
