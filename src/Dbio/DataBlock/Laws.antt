-- ===== src/Dbio/DataBlock/Laws.antt =====
-- What `Write` stores is what the reads of the same type return; all else is unchanged.
use pucrs_metadata_db.Base.{
  ℕ, ◌+◌, ◌≤◌, ◌<◌, ◌≡◌, refl, List, length, arith, ◌==◌, Bool-cases, inl, inr, le→leb, ok,
}
use pucrs_metadata_db.Dbio.Bytes.{Mem, poke, peek16, peek32, poke16, poke32, poke_all, slice}
use pucrs_metadata_db.Dbio.Bytes.Laws.{
  Apart, AllBytes, peek16-poke16_self, peek32-poke32_self, poke16_outside, poke32_outside,
  poke_all_outside, slice-poke_all,
}
use pucrs_metadata_db.Dbio.DataBlock.{
  DataBlock, mem, size, with_mem, read_uint8, read_uint16, read_uint32, read_string, Value, uint8,
  uint16, uint32, byte_slice, width, written, write,
}

-- The values that the types of Go can hold.
abbrev pub InRange : Value → Type 0
InRange (uint8 x) = x < 256
InRange (uint16 x) = x < 65536
InRange (uint32 x) = x < 4294967296
InRange (byte_slice x) = AllBytes x

-- The read that fits the written type gives the value back.
abbrev pub ReadsBack : DataBlock → ℕ → Value → Type 0
ReadsBack db p (uint8 x) = read_uint8 db p ≡ ok x
ReadsBack db p (uint16 x) = read_uint16 db p ≡ ok x
ReadsBack db p (uint32 x) = read_uint32 db p ≡ ok x
ReadsBack db p (byte_slice x) = read_string db p (length x) ≡ ok x

pub written_outside :
    (v : Value) (m : Mem) (p i : ℕ) → Apart p (width v) i 1 → written v m p i ≡ m i
unfolding width written poke
written_outside (uint8 x) m p i h = ground arith
written_outside (uint16 x) m p i h = poke16_outside m p x i h
written_outside (uint32 x) m p i h = poke32_outside m p x i h
written_outside (byte_slice x) m p i h = poke_all_outside m p x i h

module _ (db : DataBlock) (p : ℕ) where
  pub write-ok :
      (v : Value) → p + width v ≤ size db → write db p v ≡ ok (with_mem db (written v (mem db) p))
  unfolding write
  write-ok v h = elim (Bool-cases (width v == 0)) [
    | inl e ↦ rw e refl
    | inr e ↦ rw (e, le→leb _ _ h) refl
  ]

  pub write16-ok :
      (x : ℕ) → p + 2 ≤ size db → write db p (uint16 x) ≡ ok (with_mem db (poke16 (mem db) p x))
  unfolding width written
  write16-ok x h = write-ok (uint16 x) h

  pub write32-ok :
      (x : ℕ) → p + 4 ≤ size db → write db p (uint32 x) ≡ ok (with_mem db (poke32 (mem db) p x))
  unfolding width written
  write32-ok x h = write-ok (uint32 x) h

  pub write_bytes-ok :
      (x : List ℕ)
      → p + length x ≤ size db
      → write db p (byte_slice x) ≡ ok (with_mem db (poke_all (mem db) p x))
  unfolding width written
  write_bytes-ok x h = write-ok (byte_slice x) h

  pub read_uint16-ok : p + 2 ≤ size db → read_uint16 db p ≡ ok (peek16 (mem db) p)
  unfolding read_uint16
  read_uint16-ok h = rw (le→leb _ _ h)

  pub read_uint32-ok : p + 4 ≤ size db → read_uint32 db p ≡ ok (peek32 (mem db) p)
  unfolding read_uint32
  read_uint32-ok h = rw (le→leb _ _ h)

  pub read_string-ok : (n : ℕ) → p + n ≤ size db → read_string db p n ≡ ok (slice (mem db) p n)
  unfolding read_string
  read_string-ok n h = rw (le→leb _ _ h)

  written-ReadsBack :
      (v : Value)
      → InRange v
      → p + width v ≤ size db
      → ReadsBack (with_mem db (written v (mem db) p)) p v
  unfolding width written read_uint8 read_uint16 read_uint32 read_string poke
  written-ReadsBack (uint8 x) r h = ground arith
  written-ReadsBack (uint16 x) r h = rw (le→leb _ _ h, peek16-poke16_self (mem db) p x r)
  written-ReadsBack (uint32 x) r h = rw (le→leb _ _ h, peek32-poke32_self (mem db) p x r)
  written-ReadsBack (byte_slice x) r h = rw (le→leb _ _ h, slice-poke_all (mem db) p x r)

  -- A value of any of the four types that fits inside the block is written, the read of its type
  -- gives it back, no byte outside it changes, and the length stays.
  pub write-ReadsBack :
      (v : Value)
      → InRange v
      → p + width v ≤ size db
      → (db' : DataBlock) × (write db p v ≡ ok db')
        × ReadsBack db' p v
        × ((i : ℕ) → Apart p (width v) i 1 → mem db' i ≡ mem db i)
        × (size db' ≡ size db)
  write-ReadsBack v r h = (
    with_mem db (written v (mem db) p),
    write-ok v h,
    written-ReadsBack v r h,
    written_outside v (mem db) p,
    refl,
  )
