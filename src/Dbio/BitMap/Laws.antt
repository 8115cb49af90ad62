-- ===== src/Dbio/BitMap/Laws.antt =====
-- What `Set`, `Unset` and `Get` of a bitmap do to each other's positions.
use Prim.Native.Nat.{bit_xor}
use pucrs_metadata_db.Base.{
  ℕ, ◌*◌, ◌/◌, ◌^◌, ◌≤◌, ◌<◌, ◌≡◌, refl, ap, ◌∙◌, Bool, true, false, ◌&&◌, not, arith, ltb, lt→ltb,
  ltb_of_le, ◌==◌, if◌then◌else◌, Bool-cases, inl, inr, ok, err, panic, out_of_range, ◌>>=◌,
}
use pucrs_metadata_db.Base.Int.{ℤ, pos, negsuc}
use pucrs_metadata_db.Dbio.Bytes.{Bytes, poke}
use pucrs_metadata_db.Dbio.DataBlock.Unshift.{IsByteMem}
use pucrs_metadata_db.Dbio.BitMap.{
  BitMap, new_from_bytes, check_range, val_at, toggle, get, set, unset,
}
use pucrs_metadata_db.Dbio.BitMap.Bits.{bit, bit-flip, bit_xor-lt, slot, slot-lt, mask-slot}

-- The positions that a bitmap of whole bytes has.
pub record Holds (b : BitMap) (i : ℕ) : Type 0 where
  pub bytes_below_256 : IsByteMem b.vals.byte
  pub in_size : i ≤ b.size
  pub in_vals : i / 8 < b.vals.len

-- The two positions use one bit.
abbrev pub same_bit : ℕ → ℕ → Bool
same_bit i j = (i / 8 == j / 8) && (slot i == slot j)

abbrev pub flag : BitMap → ℕ → Bool
flag b i = bit (b.vals.byte (i / 8)) (slot i)

-- `b` with the bit of `i` flipped.
abbrev pub flipped : BitMap → ℕ → BitMap
flipped b i = record b {
  vals = record {
    len = b.vals.len;
    byte = poke b.vals.byte (i / 8) (bit_xor (b.vals.byte (i / 8)) (2 ^ slot i));
  };
}

module _ (b : BitMap) (i : ℕ) where
  pub get-ok : i ≤ b.size → i / 8 < b.vals.len → get b (pos i) ≡ ok (flag b i)
  unfolding get
  get-ok hs hv = rw (ltb_of_le b.size i hs, lt→ltb _ _ hv, mask-slot i)

  pub toggle-ok : i / 8 < b.vals.len → toggle b i ≡ ok (flipped b i)
  unfolding toggle
  toggle-ok hv = rw (lt→ltb _ _ hv, mask-slot i)

module _ (b : BitMap) (i : ℕ) (h : Holds b i) where
  pub set-ok : set b (pos i) ≡ ok (if flag b i then b else flipped b i)
  unfolding set check_range
  set-ok =
      rw (ltb_of_le b.size i h.in_size, get-ok b i h.in_size h.in_vals)
        (ground (arith, toggle-ok b i h.in_vals))

  pub unset-ok : unset b (pos i) ≡ ok (if flag b i then flipped b i else b)
  unfolding unset
  unset-ok = rw (get-ok b i h.in_size h.in_vals) (ground (arith, toggle-ok b i h.in_vals))

module _ (b : BitMap) (i j : ℕ) (hi : Holds b i) (hj : Holds b j) where
  pub flag-flipped : flag (flipped b i) j ≡ (if same_bit i j then not (flag b j) else flag b j)
  unfolding poke
  flag-flipped = ground (
    arith,
    bit_xor-lt (b.vals.byte (i / 8)) (slot i) (hi.bytes_below_256 (i / 8)) (slot-lt i),
    bit-flip (b.vals.byte (i / 8)) (slot i) (hi.bytes_below_256 (i / 8)) (slot-lt i) (slot j)
        (slot-lt j),
  )

  get-flipped : get (flipped b i) (pos j) ≡ ok (if same_bit i j then not (flag b j) else flag b j)
  get-flipped = get-ok (flipped b i) j hj.in_size hj.in_vals ∙ ap ok flag-flipped

  -- positions that use one bit have one flag
  pub flag-same_bit : same_bit i j ≡ true → flag b j ≡ flag b i
  flag-same_bit h = ground arith

  get-set :
      (set b (pos i) >>= λ b'. get b' (pos j)) ≡ (if same_bit i j then ok true else get b (pos j))
  unfolding set check_range
  get-set = elim (Bool-cases (flag b i)) [
    | inl old ↦
        rw (ltb_of_le b.size i hi.in_size, get-ok b i hi.in_size hi.in_vals, old)
          (ground (arith, get-ok b j hj.in_size hj.in_vals, flag-same_bit))
    | inr new ↦
        rw
          (
            ltb_of_le b.size i hi.in_size,
            get-ok b i hi.in_size hi.in_vals,
            new,
            toggle-ok b i hi.in_vals,
          )
          (ground (arith, get-flipped, get-ok b j hj.in_size hj.in_vals, flag-same_bit))
  ]

  get-unset :
      (unset b (pos i) >>= λ b'. get b' (pos j))
      ≡ (if same_bit i j then ok false else get b (pos j))
  unfolding unset
  get-unset = elim (Bool-cases (flag b i)) [
    | inl old ↦
        rw (get-ok b i hi.in_size hi.in_vals, old, toggle-ok b i hi.in_vals)
          (ground (arith, get-flipped, get-ok b j hj.in_size hj.in_vals, flag-same_bit))
    | inr new ↦
        rw (get-ok b i hi.in_size hi.in_vals, new)
          (ground (arith, get-ok b j hj.in_size hj.in_vals, flag-same_bit))
  ]

  -- Let `i` and `j` be positions inside a bitmap whose bytes are below 256. Reading `j` after `Set` of
  -- `i` gives true if both use the same bit, and the old flag otherwise; after `Unset` of `i` it gives
  -- false if both use the same bit, and the old flag otherwise.
  pub get_changed :
      ((set b (pos i) >>= λ b'. get b' (pos j)) ≡ (if same_bit i j then ok true else get b (pos j)))
      × ((unset b (pos i) >>= λ b'. get b' (pos j))
          ≡ (if same_bit i j then ok false else get b (pos j)))
  get_changed = (get-set, get-unset)

-- `Get` of a bitmap made from bytes, at every `int`: an error below 0 and above the size, the flag
-- inside, and a panic at the size itself, which the range check lets through.
pub get-new_from_bytes :
    (v : Bytes) (i : ℤ)
    → get (new_from_bytes v) i ≡ (elim i [
      | pos n ↦
          if ltb n (v.len * 8)
          then ok (bit (v.byte (n / 8)) (slot n))
          else (if n == v.len * 8 then panic else err out_of_range)
      | negsuc n ↦ err out_of_range
    ])
unfolding get check_range new_from_bytes val_at
get-new_from_bytes v (pos n) = ground (arith, mask-slot n)
get-new_from_bytes v (negsuc n) = refl
