-- ===== src/Dbio/DataFile/Os.antt =====
-- What src/simplejsondb/dbio/data_file.go relies on in package os, and the bytes of a file.
use pucrs_metadata_db.Base.{
  ℕ, zero, suc, ◌+◌, ◌≤◌, ◌<◌, ◌≡◌, ◌⊎◌, inl, inr, refl, ap₂, ◌∙◌, arith, ◌==◌, leb, if◌then◌else◌,
  List, [], ◌∷◌, length, take, ok,
}
use pucrs_metadata_db.Dbio.Bytes.{Mem, slice}
use pucrs_metadata_db.Dbio.DataFile.Disk.{Os}

-- The bytes with `xs` written from `p` on.
abbrev pub written : Mem → ℕ → List ℕ → Mem
written m p [] = m
written m p (x ∷ xs) = λ i. if i == p then x else written m (p + 1) xs i

-- An open file has bytes up to a size, and a position. A call may fail. A read that succeeds says how many
-- bytes it read, which may be fewer than the buffer has, and puts them at the front of the buffer.
pub record IsOs (os : Os) : Type 1 where
  pub IsOpen : os.World → os.File → Type 0
  pub size : os.World → os.File → ℕ
  pub byte : os.World → os.File → Mem
  pub position : os.World → os.File → ℕ
  pub seeks :
      (w w' : os.World) (f : os.File) (n : ℕ)
      → IsOpen w f
      → os.seek f n w ≡ (w', ok tt)
      → IsOpen w' f × (size w' f ≡ size w f) × (byte w' f ≡ byte w f) × (position w' f ≡ n)
  pub reads :
      (w w' : os.World) (f : os.File) (xs ys : List ℕ) (n : ℕ)
      → IsOpen w f
      → os.read f xs w ≡ (w', ok (n, ys))
      → (n ≤ length xs) × (length ys ≡ length xs) × (take n ys ≡ slice (byte w f) (position w f) n)
  pub writes :
      (w w' : os.World) (f : os.File) (xs : List ℕ)
      → IsOpen w f
      → os.write f xs w ≡ (w', ok tt)
      → IsOpen w' f
        × (byte w' f ≡ written (byte w f) (position w f) xs)
        × (size w' f ≡ (
            if leb (position w f + length xs) (size w f)
            then size w f
            else position w f + length xs))
  pub syncs :
      (w w' : os.World) (f : os.File)
      → IsOpen w f
      → os.sync f w ≡ (w', ok tt)
      → IsOpen w' f × (byte w' f ≡ byte w f) × (size w' f ≡ size w f)
  pub creates :
      (w w' : os.World) (name : os.Name) (f : os.File)
      → os.create name w ≡ (w', ok f)
      → IsOpen w' f × (size w' f ≡ 0)
  pub truncates :
      (w w' : os.World) (f : os.File) (n : ℕ)
      → IsOpen w f
      → os.truncate f n w ≡ (w', ok tt)
      → IsOpen w' f × (size w' f ≡ n) × ((i : ℕ) → size w f ≤ i → byte w' f i ≡ 0)

pub slice_ext :
    (m m' : Mem) (p n : ℕ) → ((i : ℕ) → p ≤ i → i < p + n → m i ≡ m' i) → slice m p n ≡ slice m' p n
unfolding slice
slice_ext m m' p zero h = refl
slice_ext m m' p (suc n) h =
    ap₂ (λ (x : ℕ) (xs : List ℕ). x ∷ xs) (h p (omega arith) (omega arith))
      (slice_ext m m' (p + 1) n (λ i l u. h i (omega arith) (omega arith)))

pub written_apart :
    (m : Mem) (p : ℕ) (xs : List ℕ) (i : ℕ) → (i < p) ⊎ (p + length xs ≤ i) → written m p xs i ≡ m i
written_apart m p [] i h = refl
written_apart m p (x ∷ xs) i (inl h) =
    ground (arith, written_apart m (p + 1) xs i (inl (omega arith)))
written_apart m p (x ∷ xs) i (inr h) =
    ground (arith, written_apart m (p + 1) xs i (inr (omega arith)))

pub slice-written_self : (m : Mem) (p : ℕ) (xs : List ℕ) → slice (written m p xs) p (length xs) ≡ xs
unfolding slice
slice-written_self m p [] = refl
slice-written_self m p (x ∷ xs) =
    ap₂ (λ (x : ℕ) (xs : List ℕ). x ∷ xs) (ground arith)
      (slice_ext (written m p (x ∷ xs)) (written m (p + 1) xs) (p + 1) (length xs)
          (λ i l u. ground arith)
        ∙ slice-written_self m (p + 1) xs)

pub slice-written_apart :
    (m : Mem) (p : ℕ) (xs : List ℕ) (q n : ℕ)
    → (q + n ≤ p) ⊎ (p + length xs ≤ q)
    → slice (written m p xs) q n ≡ slice m q n
slice-written_apart m p xs q n (inl h) =
    slice_ext (written m p xs) m q n (λ i l u. written_apart m p xs i (inl (omega arith)))
slice-written_apart m p xs q n (inr h) =
    slice_ext (written m p xs) m q n (λ i l u. written_apart m p xs i (inr (omega arith)))
