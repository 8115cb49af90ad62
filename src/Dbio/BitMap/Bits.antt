-- ===== src/Dbio/BitMap/Bits.antt =====
-- Single bits of a byte, by a check of every byte.
use Prim.Native.Nat.{bit_xor}
use pucrs_metadata_db.Base.{
  ℕ, zero, suc, ◌-◌, ◌*◌, ◌/◌, ◌^◌, ◌<◌, ◌≡◌, refl, Bool, true, false, ◌&&◌, not, arith, ltb, ◌==◌,
  if◌then◌else◌,
}
use pucrs_metadata_db.Dbio.BitMap.{mask}

-- The test passes at all of the `n` numbers from 0 on.
passes : (ℕ → Bool) → ℕ → Bool
passes test zero = true
passes test (suc n) = passes test n && test n

passes-elim : (test : ℕ → Bool) (n i : ℕ) → i < n → passes test n ≡ true → test i ≡ true
unfolding passes
passes-elim test (suc n) i inside all = ground (arith, passes-elim test n i)
passes-elim test zero i inside all = absurd (omega (arith, inside))

-- The test of `Get`: flipping a bit that is set makes the byte smaller.
abbrev pub bit : ℕ → ℕ → Bool
bit x k = ltb (bit_xor x (2 ^ k)) x

same_bool : Bool → Bool → Bool
same_bool true b = b
same_bool false b = not b

same_bool_sound : (a b : Bool) → same_bool a b ≡ true → a ≡ b
unfolding same_bool
same_bool_sound a b h = ground arith

flip_law : ℕ → ℕ → ℕ → Bool
unfolding same_bool
flip_law x k j =
    ltb (bit_xor x (2 ^ k)) 256
    && same_bool (bit (bit_xor x (2 ^ k)) j) (if j == k then not (bit x j) else bit x j)

flip_table : passes (λ x. passes (λ k. passes (flip_law x k) 7) 7) 256 ≡ true
unfolding passes flip_law
flip_table = refl

flip_law_holds : (x k j : ℕ) → x < 256 → k < 7 → j < 7 → flip_law x k j ≡ true
flip_law_holds x k j hx hk hj =
    let row = passes-elim (λ x. passes (λ k. passes (flip_law x k) 7) 7) 256 x hx flip_table in
    passes-elim (flip_law x k) 7 j hj (passes-elim (λ k. passes (flip_law x k) 7) 7 k hk row)

module _ (x k : ℕ) (hx : x < 256) (hk : k < 7) where
  pub bit_xor-lt : bit_xor x (2 ^ k) < 256
  unfolding flip_law
  bit_xor-lt = ground (arith, flip_law_holds x k 0 hx hk)

  -- Flipping bit `k` changes that bit and no other.
  pub bit-flip :
      (j : ℕ) → j < 7 → bit (bit_xor x (2 ^ k)) j ≡ (if j == k then not (bit x j) else bit x j)
  unfolding flip_law
  bit-flip j hj = ground (
    arith,
    flip_law_holds x k j hx hk hj,
    same_bool_sound (bit (bit_xor x (2 ^ k)) j) (if j == k then not (bit x j) else bit x j),
  )

-- The bit of its byte that position `i` uses. Remainders 0 and 1 have the same one.
abbrev pub slot : ℕ → ℕ
slot i = i - i / 8 * 8 - 1

pub slot-lt : (i : ℕ) → slot i < 7
slot-lt i = omega arith

pub mask-slot : (i : ℕ) → mask i ≡ 2 ^ slot i
unfolding mask
mask-slot i = ground arith
