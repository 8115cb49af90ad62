-- ===== src/Dbio/DataBlock.antt =====
-- src/simplejsondb/dbio/data_block.go: typed reads and writes on the bytes of a block.
pub mod Laws
pub mod Unshift
mod Tests
use pucrs_metadata_db.Base.{
  ℕ, zero, suc, ◌+◌, ◌-◌, List, ◌∷◌, leb, ltb, ◌==◌, if◌then◌else◌, length, Result, ok, ◌>>=◌, ◌>>◌,
  assert,
}
use pucrs_metadata_db.Dbio.Bytes.{Bytes, Mem, poke, peek16, peek32, poke16, poke32, poke_all, slice}

-- `ID` is the number of the block on the data file. `Data` shares its bytes with the frame of the
-- buffer that the block was fetched into; the operations return the new contents.
pub record DataBlock : Type 0 where
  pub id : ℕ
  pub contents : Bytes

abbrev pub mem : DataBlock → Mem
mem db = db.contents.byte

abbrev pub size : DataBlock → ℕ
size db = db.contents.len

abbrev pub with_mem : DataBlock → Mem → DataBlock
with_mem db m = record db { contents = record { len = db.contents.len; byte = m } }

-- The run-time check of `Data[p : p+n]`.
abbrev pub in_bounds : DataBlock → ℕ → ℕ → Result (Unit {0})
in_bounds db p n = assert (leb (p + n) (size db))

unfoldable pub read_uint8 : DataBlock → ℕ → Result ℕ
read_uint8 db starting_at = do in_bounds db starting_at 1; ok (mem db starting_at)

unfoldable pub read_uint16 : DataBlock → ℕ → Result ℕ
read_uint16 db starting_at = do in_bounds db starting_at 2; ok (peek16 (mem db) starting_at)

unfoldable pub read_uint32 : DataBlock → ℕ → Result ℕ
read_uint32 db starting_at = do in_bounds db starting_at 4; ok (peek32 (mem db) starting_at)

unfoldable pub read_string : DataBlock → ℕ → ℕ → Result (List ℕ)
read_string db starting_at length = do
  in_bounds db starting_at length
  ok (slice (mem db) starting_at length)

-- The cases of the type switch in `Write`.
pub data Value : Type 0 where
  uint8 uint16 uint32 : ℕ → Value
  byte_slice : List ℕ → Value

unfoldable pub width : Value → ℕ
width (uint8 x) = 1
width (uint16 x) = 2
width (uint32 x) = 4
width (byte_slice x) = length x

unfoldable pub written : Value → Mem → ℕ → Mem
written (uint8 x) m position = poke m position x
written (uint16 x) m position = poke16 m position x
written (uint32 x) m position = poke32 m position x
written (byte_slice x) m position = poke_all m position x

-- No bytes are written at any position: the loop over an empty `[]byte` has no round.
abbrev pub room_for : DataBlock → ℕ → ℕ → Result (Unit {0})
room_for db position n = if n == 0 then ok tt else in_bounds db position n

-- A write out of bounds panics. (The loop over a `[]byte` panics only after it has written the
-- bytes that fit; no caller recovers, so nothing reads them.)
unfoldable pub write : DataBlock → ℕ → Value → Result DataBlock
unfolding width written
write db position v = do
  room_for db position (width v)
  ok (with_mem db (written v (mem db) position))

-- `for i := endOfShift; i >= position; i-- { Data[i+count] = Data[i] }` with `n` rounds left, so
-- that the round at hand has `i = position + n - 1`.
unfoldable pub unshift_loop : ℕ → Mem → ℕ → ℕ → Mem
unfolding poke
unshift_loop zero m position count = m
unshift_loop (suc n) m position count =
    unshift_loop n (poke m (position + n + count) (m (position + n))) position count

-- `endOfShift` is `len - 1 - count`: there are `len - count - position` rounds, none if that is
-- negative, and each stays in bounds.
unfoldable pub unshift : DataBlock → ℕ → ℕ → DataBlock
unfolding unshift_loop
unshift db position count =
    with_mem db (unshift_loop (size db - count - position) (mem db) position count)
