-- ===== src/Dbio/DataBlock/Unshift.antt =====
-- `Unshift` opens a gap: it moves what stands from `position` on up by `count` bytes.
use pucrs_metadata_db.Base.{ℕ, zero, suc, ◌+◌, ◌-◌, ◌<◌, ◌≡◌, ◌&&◌, arith, leb, ltb, if◌then◌else◌}
use pucrs_metadata_db.Dbio.Bytes.{Mem, poke}
use pucrs_metadata_db.Dbio.DataBlock.{DataBlock, mem, size, unshift_loop, unshift}

-- Every byte of the memory is below 256.
abbrev pub IsByteMem : Mem → Type 0
IsByteMem m = (i : ℕ) → m i < 256

pub poke-IsByteMem : (m : Mem) (p v : ℕ) → IsByteMem m → IsByteMem (poke m p v)
unfolding poke
poke-IsByteMem m p v h i = ground (arith, h i)

-- The loop, read as a single simultaneous move.
pub unshift_loop_lem :
    (n : ℕ) (m : Mem) (position count i : ℕ)
    → IsByteMem m
    → unshift_loop n m position count i
      ≡ (if leb (position + count) i && ltb i (position + count + n) then m (i - count) else m i)
unfolding unshift_loop poke
unshift_loop_lem zero m position count i h = ground arith
unshift_loop_lem (suc n) m position count i h = ground (
  arith,
  unshift_loop_lem n (poke m (position + n + count) (m (position + n))) position count i
      (poke-IsByteMem m (position + n + count) (m (position + n)) h),
  h (position + n),
)

-- `Unshift` moves every byte from `position` on up by `count`, dropping those that would pass the
-- end of the block, and leaves the bytes below `position + count` as they were.
pub unshift_lem :
    (db : DataBlock) (position count i : ℕ)
    → IsByteMem (mem db)
    → mem (unshift db position count) i
      ≡ (if leb (position + count) i && ltb i (size db) then mem db (i - count) else mem db i)
unfolding unshift
unshift_lem db position count i h =
    ground (arith, unshift_loop_lem (size db - count - position) (mem db) position count i h)
