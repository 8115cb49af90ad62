-- ===== src/Core/Repository.antt =====
-- src/simplejsondb/core/data_block_repository.go: blocks fetched from the buffer. A fetched block
-- shares its bytes with a frame of the buffer: it is a handle on the frame, through which the
-- programs read and write what the frame holds at that time.
pub mod Sees
use pucrs_metadata_db.Base.{ℕ, Option, none, some, Result, ok, err, panic, out_of_fuel, must}
use pucrs_metadata_db.Dbio.DataBlock.{DataBlock, mem}
use pucrs_metadata_db.Dbio.DataFile.{DataFile}
use pucrs_metadata_db.Dbio.DataBuffer.{
  DataBuffer, update_frame, block_of, fetch_block, mark_as_dirty,
}

-- A program on the buffer.
abbrev pub Prog : DataFile → Type 0 → Type 0
Prog df A = DataBuffer df → DataBuffer df × Result A

-- A `*DataBlock`: the number of the block, and the frame that its `Data` is.
pub record Handle : Type 0 where
  pub id : ℕ
  pub frame : ℕ

module _ {df : DataFile} where
  abbrev pub pure : {A : Type 0} → A → Prog df A
  pure x db = (db, ok x)

  abbrev pub lift : {A : Type 0} → Result A → Prog df A
  lift r db = (db, r)

  -- What comes after a call, by how the call ended.
  abbrev pub and_then :
      {A B : Type 0} → DataBuffer df × Result A → (A → Prog df B) → DataBuffer df × Result B
  and_then (db, ok x) f = f x db
  and_then (db, err e) f = (db, err e)
  and_then (db, panic) f = (db, panic)
  and_then (db, out_of_fuel) f = (db, out_of_fuel)

  infixl 5 ◌>>=◌ ◌>>◌
  abbrev pub ◌>>=◌ : {A B : Type 0} → Prog df A → (A → Prog df B) → Prog df B
  (m >>= f) db = and_then (m db) f

  abbrev pub ◌>>◌ : {B : Type 0} → Prog df (Unit {0}) → Prog df B → Prog df B
  m >> k = m >>= λ _. k

  unfoldable pub handle_of : ℕ → DataBuffer df × Result DataBlock → DataBuffer df × Result Handle
  handle_of id (db, ok b) = elim (db.id_to_frame id) [
    | none ↦ (db, panic)
    | some k ↦ (db, ok (record { id = id; frame = k }))
  ]
  handle_of id (db, err e) = (db, panic)
  handle_of id (db, panic) = (db, panic)
  handle_of id (db, out_of_fuel) = (db, out_of_fuel)

  -- `fetchBlock`: a block that cannot be fetched panics.
  unfoldable pub fetch : ℕ → Prog df Handle
  fetch id db = handle_of id (fetch_block db id)

  -- A read of the bytes behind a handle.
  unfoldable pub look : {A : Type 0} → Handle → (DataBlock → Result A) → Prog df A
  look h f db = (db, f (block_of db h.id h.frame))

  unfoldable pub stored :
      DataBuffer df → Handle → Result DataBlock → DataBuffer df × Result (Unit {0})
  stored db h (ok b) =
      (update_frame db h.frame (record (db.frames h.frame) { contents = mem b }), ok tt)
  stored db h (err e) = (db, err e)
  stored db h panic = (db, panic)
  stored db h out_of_fuel = (db, out_of_fuel)

  -- A change of the bytes behind a handle.
  unfoldable pub change : Handle → (DataBlock → Result DataBlock) → Prog df (Unit {0})
  change h f db = stored db h (f (block_of db h.id h.frame))

  unfoldable pub dirty : ℕ → Prog df (Unit {0})
  dirty id db = mark_as_dirty db id
