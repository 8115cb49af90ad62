-- ===== src/Dbio/DataBuffer/Valid/Count.antt =====
-- How many frames are in use.
use pucrs_metadata_db.Base.{
  ℕ, zero, suc, ◌+◌, ◌≤◌, ◌<◌, ◌≡◌, refl, ◌⊎◌, true, false, if◌then◌else◌, Option, some, arith,
  Bool-cases, inl, inr,
}
use pucrs_metadata_db.Dbio.DataBuffer.{Frame, Frames, set_frame, blank, free_loop}

-- Among the `n` frames from `i` on.
abbrev pub count_in_use : ℕ → ℕ → Frames → ℕ
count_in_use zero i fs = 0
count_in_use (suc n) i fs = (if (fs i).in_use then 1 else 0) + count_in_use n (i + 1) fs

pub count_same :
    (n i : ℕ) (fs gs : Frames)
    → ((k : ℕ) → (fs k).in_use ≡ (gs k).in_use)
    → count_in_use n i fs ≡ count_in_use n i gs
count_same zero i fs gs h = refl
count_same (suc n) i fs gs h = ground (arith, h i, count_same n (i + 1) fs gs h)

pub count-blank : (n i : ℕ) → count_in_use n i (λ _. blank) ≡ 0
count-blank zero i = refl
count-blank (suc n) i = omega (arith, count-blank n (i + 1))

count-set_frame_outside :
    (n i k : ℕ) (fs : Frames) (f : Frame)
    → (k < i) ⊎ (i + n ≤ k)
    → count_in_use n i (set_frame fs k f) ≡ count_in_use n i fs
count-set_frame_outside zero i k fs f h = refl
count-set_frame_outside (suc n) i k fs f h =
    ground (arith, count-set_frame_outside n (i + 1) k fs f)

-- Putting a frame that is in use in the place of one that is not adds one.
pub count-set_frame :
    (n i k : ℕ) (fs : Frames) (f : Frame)
    → i ≤ k
    → k < i + n
    → (fs k).in_use ≡ false
    → f.in_use ≡ true
    → count_in_use n i (set_frame fs k f) ≡ count_in_use n i fs + 1
count-set_frame zero i k fs f a b c d = absurd (omega arith)
count-set_frame (suc n) i k fs f a b c d =
    ground (arith, count-set_frame n (i + 1) k fs f, count-set_frame_outside n (i + 1) k fs f)

pub count-set_frame_free :
    (n i k : ℕ) (fs : Frames) (f : Frame)
    → i ≤ k
    → k < i + n
    → (fs k).in_use ≡ true
    → f.in_use ≡ false
    → count_in_use n i (set_frame fs k f) + 1 ≡ count_in_use n i fs
count-set_frame_free zero i k fs f a b c d = absurd (omega arith)
count-set_frame_free (suc n) i k fs f a b c d =
    ground (arith, count-set_frame_free n (i + 1) k fs f, count-set_frame_outside n (i + 1) k fs f)

-- If not all are in use, the loop over the frames stops at one that is not.
pub free_loop_finds :
    (n i : ℕ) (fs : Frames) (frame : Option ℕ)
    → count_in_use n i fs < n
    → (k : ℕ) × (free_loop n i fs frame ≡ some k) × (i ≤ k) × (k < i + n) × ((fs k).in_use ≡ false)
unfolding free_loop
free_loop_finds zero i fs frame h = absurd (omega arith)
free_loop_finds (suc n) i fs frame h = elim (Bool-cases ((fs i).in_use)) [
  | inr free ↦ (i, rw (free, free_loop), omega arith, omega arith, free)
  | inl used ↦
      let (k, e, a, b, c) = free_loop_finds n (i + 1) fs (some i) (ground arith) in
      (k, rw used e, omega arith, omega arith, c)
]
