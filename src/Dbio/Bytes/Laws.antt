-- ===== src/Dbio/Bytes/Laws.antt =====
-- Reads over writes: what a write leaves in its own bytes, and that it spares all others.
use pucrs_metadata_db.Base.{
  ℕ, zero, suc, ◌+◌, ◌≤◌, ◌<◌, ◌≡◌, refl, ◌⊎◌, List, [], ◌∷◌, arith, length, ap₂,
}
use pucrs_metadata_db.Dbio.Bytes.{Mem, poke, peek16, peek32, poke16, poke32, slice, poke_all}

-- The `n` bytes at `p` and the `k` bytes at `q` have no byte in common.
abbrev pub Apart : ℕ → ℕ → ℕ → ℕ → Type 0
Apart p n q k = (p + n ≤ q) ⊎ (q + k ≤ p)

-- `m` and `m'` hold the same `n` bytes at `p`.
abbrev pub Same : Mem → Mem → ℕ → ℕ → Type 0
Same m m' p n = (i : ℕ) → p ≤ i → i < p + n → m i ≡ m' i

module _ (m : Mem) (p v : ℕ) where
  pub peek16-poke16_self : v < 65536 → peek16 (poke16 m p v) p ≡ v
  unfolding peek16 poke16
  peek16-poke16_self h = ground arith

  pub peek32-poke32_self : v < 4294967296 → peek32 (poke32 m p v) p ≡ v
  unfolding peek32 poke32
  peek32-poke32_self h = ground arith

  pub poke16_outside : (i : ℕ) → Apart p 2 i 1 → poke16 m p v i ≡ m i
  unfolding poke16
  poke16_outside i h = ground arith

  pub poke32_outside : (i : ℕ) → Apart p 4 i 1 → poke32 m p v i ≡ m i
  unfolding poke32
  poke32_outside i h = ground arith

pub poke_all_outside :
    (m : Mem) (p : ℕ) (xs : List ℕ) (i : ℕ) → Apart p (length xs) i 1 → poke_all m p xs i ≡ m i
unfolding poke_all
poke_all_outside m p [] i h = refl
poke_all_outside m p (x ∷ xs) i h = ground (arith, poke_all_outside (poke m p x) (p + 1) xs i)

module _ (m m' : Mem) (p : ℕ) where
  pub peek16-Same : Same m m' p 2 → peek16 m p ≡ peek16 m' p
  unfolding peek16
  peek16-Same h = ground (arith, h p, h (p + 1))

  pub peek32-Same : Same m m' p 4 → peek32 m p ≡ peek32 m' p
  unfolding peek32
  peek32-Same h = ground (arith, h p, h (p + 1), h (p + 2), h (p + 3))

pub slice-Same : (m m' : Mem) (p n : ℕ) → Same m m' p n → slice m p n ≡ slice m' p n
unfolding slice
slice-Same m m' p zero h = refl
slice-Same m m' p (suc n) h =
    ap₂ ◌∷◌ (h p (omega arith) (omega arith))
      (slice-Same m m' (p + 1) n λ i a b. h i (omega arith) (omega arith))

-- A list whose values are bytes.
abbrev pub AllBytes : List ℕ → Type 0
AllBytes [] = Unit {0}
AllBytes (x ∷ xs) = (x < 256) × AllBytes xs

pub slice-poke_all :
    (m : Mem) (p : ℕ) (xs : List ℕ) → AllBytes xs → slice (poke_all m p xs) p (length xs) ≡ xs
unfolding slice poke_all
slice-poke_all m p [] h = refl
slice-poke_all m p (x ∷ xs) h =
    ap₂ ◌∷◌ (ground (arith, poke_all_outside (poke m p x) (p + 1) xs p))
      (slice-poke_all (poke m p x) (p + 1) xs h.1)
