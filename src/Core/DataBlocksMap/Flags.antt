-- ===== src/Core/DataBlocksMap/Flags.antt =====
-- The search for a free flag in one block of the map.
use pucrs_metadata_db.Base.{
  ℕ, zero, suc, ◌+◌, ◌*◌, ◌≤◌, ◌<◌, ◌≡◌, refl, ap, ◌∙◌, arith, Bool, true, false, if◌then◌else◌,
  Bool-cases, inl, inr, Option, none, some, ok,
}
use native.Mathlib.Decide.{ℕ_discrete}
use pucrs_metadata_db.Base.Int.{pos}
use pucrs_metadata_db.Dbio.BitMap
use pucrs_metadata_db.Dbio.BitMap.{BitMap}
use pucrs_metadata_db.Dbio.BitMap.Laws.{flag, get-ok}
use pucrs_metadata_db.Core.DataBlocksMap.{flags_loop}

-- What the search may answer: the first position from `i` on whose flag is not set, or nothing if
-- all `n` flags are set.
abbrev pub IsFirst : (ℕ → Bool) → ℕ → ℕ → Option ℕ → Type 0
IsFirst in_use i n (some p) =
    (i ≤ p) × (p < i + n) × (in_use p ≡ false) × ((q : ℕ) → i ≤ q → q < p → in_use q ≡ true)
IsFirst in_use i n none = (q : ℕ) → i ≤ q → q < i + n → in_use q ≡ true

abbrev pub IsFirstFree : BitMap → ℕ → ℕ → Option ℕ → Type 0
IsFirstFree b = IsFirst (flag b)

IsFirstFree-later :
    (b : BitMap) (i n : ℕ) (r : Option ℕ)
    → flag b i ≡ true
    → IsFirstFree b (i + 1) n r
    → IsFirstFree b i (suc n) r
IsFirstFree-later b i n none h all = λ q x y. elim (ℕ_discrete q i) [
  | yes e ↦ ap (λ k. flag b k) e ∙ h
  | no ne ↦ all q (omega arith) (omega arith)
]
IsFirstFree-later b i n (some p) h (x, y, z, all) = (
  omega arith,
  omega arith,
  z,
  λ q u v. elim (ℕ_discrete q i) [
    | yes e ↦ ap (λ k. flag b k) e ∙ h
    | no ne ↦ all q (omega arith) v
  ],
)

flags_loop-step :
    (b : BitMap) (n i : ℕ) (in_use : Bool)
    → BitMap.get b (pos i) ≡ ok in_use
    → flags_loop (suc n) i b ≡ (if in_use then flags_loop n (i + 1) b else ok (some i))
unfolding flags_loop
flags_loop-step b n i in_use e = rw (flags_loop, e)

-- The loop over the flags of one block ends with the first free position of those it looks at, or
-- with none, provided that the bitmap has that many.
pub flags_loop-IsFirstFree :
    (b : BitMap) (n i : ℕ)
    → i + n ≤ b.size
    → i + n ≤ b.vals.len * 8
    → (r : Option ℕ) × (flags_loop n i b ≡ ok r) × IsFirstFree b i n r
unfolding flags_loop
flags_loop-IsFirstFree b zero i hs hv = (none, refl, λ q x y. absurd (omega arith))
flags_loop-IsFirstFree b (suc n) i hs hv =
    let (r, e, first) = flags_loop-IsFirstFree b n (i + 1) (omega arith) (omega arith) in
    elim (Bool-cases (flag b i)) [
      | inl used ↦ (
        r,
        flags_loop-step b n i true (get-ok b i (omega arith) (omega arith) ∙ ap ok used) ∙ e,
        IsFirstFree-later b i n r used first,
      )
      | inr free ↦ (
        some i,
        flags_loop-step b n i false (get-ok b i (omega arith) (omega arith) ∙ ap ok free),
        (omega arith, omega arith, free, λ q x y. absurd (omega arith)),
      )
    ]
