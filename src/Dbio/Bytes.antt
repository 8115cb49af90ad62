-- ===== src/Dbio/Bytes.antt =====
-- Byte slices as Go has them, and big-endian integers in them (encoding/binary's BigEndian).
pub mod Laws
use pucrs_metadata_db.Base.{
  ℕ, zero, suc, ◌+◌, ◌*◌, ◌/◌, ◌%◌, List, [], ◌∷◌, Bool, ◌&&◌, leb, ltb, ◌==◌, if◌then◌else◌,
}

-- A `[]byte`. The bytes from `len` on do not exist: every access is checked against `len`.
pub record Bytes : Type 0 where
  pub len : ℕ
  pub byte : ℕ → ℕ

-- The contents without the bounds.
abbrev pub Mem : Type 0
Mem = ℕ → ℕ

-- `m[p] = v`, the value cut to a byte.
unfoldable pub poke : Mem → ℕ → ℕ → Mem
poke m p v i = if i == p then v % 256 else m i

unfoldable pub peek16 : Mem → ℕ → ℕ
peek16 m p = m p * 256 + m (p + 1)

unfoldable pub peek32 : Mem → ℕ → ℕ
peek32 m p = m p * 16777216 + m (p + 1) * 65536 + m (p + 2) * 256 + m (p + 3)

unfoldable pub poke16 : Mem → ℕ → ℕ → Mem
unfolding poke
poke16 m p v = poke (poke m p (v / 256)) (p + 1) v

unfoldable pub poke32 : Mem → ℕ → ℕ → Mem
unfolding poke
poke32 m p v =
    poke (poke (poke (poke m p (v / 16777216)) (p + 1) (v / 65536)) (p + 2) (v / 256)) (p + 3) v

-- The bytes `m[p : p + n]`.
unfoldable pub slice : Mem → ℕ → ℕ → List ℕ
slice m p zero = []
slice m p (suc n) = m p ∷ slice m (p + 1) n

-- Consecutive single-byte writes from `p` on.
unfoldable pub poke_all : Mem → ℕ → List ℕ → Mem
unfolding poke
poke_all m p [] = m
poke_all m p (x ∷ xs) = poke_all (poke m p x) (p + 1) xs

-- The builtin `copy(s[p:], s[p+k:])` on a slice of `len` bytes: the regions may overlap.
unfoldable pub copy_down : Mem → ℕ → ℕ → ℕ → Mem
copy_down m len p k i = if leb p i && ltb (i + k) len then m (i + k) else m i
