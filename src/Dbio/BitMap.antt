-- ===== src/Dbio/BitMap.antt =====
-- src/simplejsondb/dbio/bit_map.go: a slice of bytes read as flags.
pub mod Bits
pub mod Laws
mod Tests
use Prim.Native.Nat.{bit_xor}
use pucrs_metadata_db.Base.{
  ℕ, ◌+◌, ◌-◌, ◌*◌, ◌/◌, ◌^◌, Bool, true, false, ltb, ◌==◌, if◌then◌else◌, Result, ok, err,
  out_of_range, ◌>>=◌, ◌>>◌, assert,
}
use pucrs_metadata_db.Base.Int.{ℤ, pos, negsuc, to_ℕ}
use pucrs_metadata_db.Dbio.Bytes.{Bytes, poke}

pub record BitMap : Type 0 where
  pub size : ℕ
  pub vals : Bytes

-- `make([]byte, s / 8)` is zeroed.
unfoldable pub new : ℕ → BitMap
new s = record { size = s; vals = record { len = s / 8; byte = λ _. 0 } }

unfoldable pub new_from_bytes : Bytes → BitMap
new_from_bytes vals = record { size = vals.len * 8; vals = vals }

unfoldable pub check_range : BitMap → ℤ → Result (Unit {0})
check_range b (pos i) = if ltb b.size i then err out_of_range else ok tt
check_range b (negsuc i) = err out_of_range

-- The bit of its byte that stands for position `i`: `1` where the remainder is 0, and
-- `1 << (remainder - 1)` elsewhere.
unfoldable pub mask : ℕ → ℕ
mask i = let remainder = i - i / 8 * 8 in if remainder == 0 then 1 else 2 ^ (remainder - 1)

-- `b.vals[p]`, with Go's check of the index.
unfoldable pub val_at : BitMap → ℕ → Result ℕ
val_at b p = do assert (ltb p b.vals.len); ok (b.vals.byte p)

unfoldable pub toggle : BitMap → ℕ → Result BitMap
unfolding mask val_at poke
toggle b i = do
  let p = i / 8
  val ← val_at b p
  ok (record b {
    vals = record { len = b.vals.len; byte = poke b.vals.byte p (bit_xor val (mask i)) };
  })

unfoldable pub get : BitMap → ℤ → Result Bool
unfolding check_range mask val_at
get b i = do
  check_range b i
  let p = to_ℕ i / 8
  val ← val_at b p
  ok (ltb (bit_xor val (mask (to_ℕ i))) val)

unfoldable pub set : BitMap → ℤ → Result BitMap
set b i = do check_range b i; val ← get b i; if val then ok b else toggle b (to_ℕ i)

unfoldable pub unset : BitMap → ℤ → Result BitMap
unset b i = do val ← get b i; if val then toggle b (to_ℕ i) else ok b

unfoldable pub bytes : BitMap → Bytes
bytes b = b.vals
