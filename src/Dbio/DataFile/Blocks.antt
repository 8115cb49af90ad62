-- ===== src/Dbio/DataFile/Blocks.antt =====
-- The blocks of a file on disk, src/simplejsondb/dbio/data_file.go.
use pucrs_metadata_db.Base.{
  ℕ, zero, suc, ◌+◌, ◌*◌, ◌≤◌, ◌<◌, ◌≡◌, ◌≢◌, ◌⊎◌, inl, inr, refl, sym, ap, ap₂, subst, ◌∙◌, arith,
  false, ◌==◌, ==_iff, ==_of_ne, if◌then◌else◌, List, [], ◌∷◌, ◌++◌, length, take, drop, Result, ok,
  err, panic, out_of_fuel,
}
use native.Mathlib.Decide.{dec_lt, ℕ_discrete}
use pucrs_metadata_db.Dbio.Bytes.{slice}
use pucrs_metadata_db.Dbio.DataFile.{datafile_size, datablock_size}
use pucrs_metadata_db.Dbio.DataFile.Disk.{
  Os, Io, ◌>>=◌, pure, and_then, open_datafile, new_datafile, seek, limited_read, read_block,
  write_block,
}
use pucrs_metadata_db.Dbio.DataFile.Os.{
  written, IsOs, written_apart, slice-written_self, slice-written_apart,
}

take_all : (n : ℕ) (xs : List ℕ) → length xs ≡ n → take n xs ≡ xs
take_all zero [] h = refl
take_all zero (x ∷ xs) h = absurd (omega (arith, h))
take_all (suc n) [] h = refl
take_all (suc n) (x ∷ xs) h = ap (λ (ys : List ℕ). x ∷ ys) (take_all n xs (omega (arith, h)))

append_nothing : (n : ℕ) (xs ys : List ℕ) → length ys ≡ n → xs ++ drop n ys ≡ xs
append_nothing n [] ys h = drop_all n ys h
  where
    drop_all : (n : ℕ) (xs : List ℕ) → length xs ≡ n → drop n xs ≡ []
    drop_all zero [] h = refl
    drop_all zero (x ∷ xs) h = absurd (omega (arith, h))
    drop_all (suc n) [] h = refl
    drop_all (suc n) (x ∷ xs) h = drop_all n xs (omega (arith, h))
append_nothing n (x ∷ xs) ys h = ap (λ (zs : List ℕ). x ∷ zs) (append_nothing n xs ys h)

abbrev pub zeros : ℕ → List ℕ
zeros zero = []
zeros (suc n) = 0 ∷ zeros n

slice-zeros : (m : ℕ → ℕ) (p n : ℕ) → ((i : ℕ) → p ≤ i → m i ≡ 0) → slice m p n ≡ zeros n
unfolding slice
slice-zeros m p zero h = refl
slice-zeros m p (suc n) h =
    ap₂ (λ (x : ℕ) (xs : List ℕ). x ∷ xs) (h p (omega arith))
      (slice-zeros m (p + 1) n (λ i l. h i (omega arith)))

take-slice : (m : ℕ → ℕ) (p n k : ℕ) → n ≤ k → take n (slice m p k) ≡ slice m p n
unfolding slice
take-slice m p zero k h = refl
take-slice m p (suc n) zero h = absurd (omega arith)
take-slice m p (suc n) (suc k) h =
    ap (λ (xs : List ℕ). m p ∷ xs) (take-slice m (p + 1) n k (omega arith))

module _ (os : Os) where
  -- A run that gave a value gave one at each step.
  first_ok :
      {A B : Type 0} (r : os.World × Result A) (next : A → Io os B) (w' : os.World) (y : B)
      → and_then os next r ≡ (w', ok y)
      → (w : os.World) × (x : A) × (r ≡ (w, ok x)) × (next x w ≡ (w', ok y))
  first_ok (w, ok x) next w' y h = (w, x, refl, h)
  first_ok (w, err e) next w' y h = absurd (ground (arith, ap (λ r. r.1) h))
  first_ok (w, panic) next w' y h = absurd (ground (arith, ap (λ r. r.1) h))
  first_ok (w, out_of_fuel) next w' y h = absurd (ground (arith, ap (λ r. r.1) h))

module _ {os : Os} (is_os : IsOs os) (f : os.File) where
  -- A data file: open, and of its full size.
  pub record IsDatafile (w : os.World) : Type 0 where
    pub opened : is_os.IsOpen w f
    pub full : is_os.size w f ≡ datafile_size

  abbrev pub block_bytes : os.World → ℕ → List ℕ
  block_bytes w id = slice (is_os.byte w f) (id * datablock_size) datablock_size

  -- A read of a block, with the number of bytes that the call of the system read.
  abbrev pub counted_read : ℕ → List ℕ → Io os (ℕ × List ℕ)
  counted_read id buf = ◌>>=◌ os (seek os f id) (λ _. limited_read os f buf)

  -- The bytes that were read are those of the block.
  pub read_block-bytes :
      (w w' : os.World) (id n : ℕ) (buf read : List ℕ)
      → IsDatafile w
      → length buf ≡ datablock_size
      → counted_read id buf w ≡ (w', ok (n, read))
      → (read_block os f id buf w ≡ (w', ok read))
        × (length read ≡ datablock_size)
        × (n ≤ datablock_size)
        × (take n read ≡ slice (is_os.byte w f) (id * datablock_size) n)
  unfolding read_block seek limited_read
  read_block-bytes w w' id n buf read d len h =
      let full = take_all datablock_size buf len in
      let gets : Io os (ℕ × List ℕ) =
        ◌>>=◌ os (os.read f (take datablock_size buf))
          (λ r. pure os (r.0, r.1 ++ drop datablock_size buf)) in
      let (w₁, _, e₁, h₁) =
        first_ok os (os.seek f (id * datablock_size) w) (λ _. gets) w' (n, read) h in
      let (w₂, (n', ys), e₂, h₂) =
        first_ok os (os.read f (take datablock_size buf) w₁)
          (λ r. pure os (r.0, r.1 ++ drop datablock_size buf)) w' (n, read) h₁ in
      let (o₁, s₁, b₁, p₁) = is_os.seeks w w₁ f (id * datablock_size) d.opened e₁ in
      let (small, same_length, front) = is_os.reads w₁ w₂ f (take datablock_size buf) ys n' o₁ e₂ in
      let count : n' ≡ n = ground (arith, ap (λ r. r.1) h₂) in
      let whole : ys ≡ read =
        sym (append_nothing datablock_size ys buf len) ∙ ground (arith, ap (λ r. r.1) h₂) in
      (
        rw (e₁, e₂) (ap (and_then os (λ (r : ℕ × List ℕ). pure os r.1)) h₂),
        ap length (sym whole) ∙ same_length ∙ ap length full ∙ len,
        omega (arith, small, ap length full, len, count),
        ap₂ (λ k xs. take k xs) (sym count) (sym whole)
            ∙ front
            ∙ rw (b₁, p₁) (ap (slice (is_os.byte w f) (id * datablock_size)) count),
      )

  -- What a write leaves.
  pub write_block-written :
      (w w' : os.World) (id : ℕ) (xs : List ℕ)
      → IsDatafile w
      → id < 65536
      → length xs ≡ datablock_size
      → write_block os f id xs w ≡ (w', ok tt)
      → IsDatafile w' × (is_os.byte w' f ≡ written (is_os.byte w f) (id * datablock_size) xs)
  unfolding write_block seek
  write_block-written w w' id xs d small len h =
      let (w₁, _, e₁, h₁) =
        first_ok os (os.seek f (id * datablock_size) w)
          (λ _. ◌>>=◌ os (os.write f xs) (λ _. os.sync f)) w' tt h in
      let (o₁, s₁, b₁, p₁) = is_os.seeks w w₁ f (id * datablock_size) d.opened e₁ in
      let (w₂, _, e₂, h₂) = first_ok os (os.write f xs w₁) (λ _. os.sync f) w' tt h₁ in
      let (o₂, b₂, s₂) = is_os.writes w₁ w₂ f xs o₁ e₂ in
      let (o₃, b₃, s₃) = is_os.syncs w₂ w' f o₂ h₂ in
      let fits : is_os.size w' f ≡ datafile_size =
        ground (arith, s₁, p₁, s₂, s₃, d.full, small, len) in
      (record { opened = o₃; full = fits }, b₃ ∙ b₂ ∙ ap₂ (λ m p. written m p xs) b₁ p₁)

  -- Let a write of a block with a `uint16` ID succeed on a data file, with as many bytes as a block has.
  -- Then the file still has its full size, and no byte outside of the block changes.
  pub write_block_in_bounds :
      (w w' : os.World) (id : ℕ) (xs : List ℕ)
      → IsDatafile w
      → id < 65536
      → length xs ≡ datablock_size
      → write_block os f id xs w ≡ (w', ok tt)
      → (id * datablock_size + datablock_size ≤ datafile_size)
        × (is_os.size w' f ≡ datafile_size)
        × ((i : ℕ)
            → (i < id * datablock_size) ⊎ (id * datablock_size + datablock_size ≤ i)
            → is_os.byte w' f i ≡ is_os.byte w f i)
  write_block_in_bounds w w' id xs d small len h =
      let (d', b) = write_block-written w w' id xs d small len h in
      (
        omega arith,
        d'.full,
        λ i out.
            ap (λ m. m i) b
            ∙ written_apart (is_os.byte w f) (id * datablock_size) xs i (
                subst (λ n. (i < id * datablock_size) ⊎ (id * datablock_size + n ≤ i)) (sym len)
                  out),
      )

  -- Let a write of a block with a `uint16` ID succeed on a data file, and let the call of the system in a read
  -- of a block after it succeed with `n` bytes. Then `ReadBlock` succeeds, and the first `n` bytes that it
  -- leaves in the buffer are those that were written, if it is the same block, and those that the file
  -- had in that block before the write otherwise: with a count of 4096 they are the whole block.
  pub read_block-write_block :
      (w w' w'' : os.World) (id j n : ℕ) (xs buf read : List ℕ)
      → IsDatafile w
      → id < 65536
      → length xs ≡ datablock_size
      → length buf ≡ datablock_size
      → write_block os f id xs w ≡ (w', ok tt)
      → counted_read j buf w' ≡ (w'', ok (n, read))
      → (read_block os f j buf w' ≡ (w'', ok read))
        × (length read ≡ datablock_size)
        × (take n read ≡ take n (if j == id then xs else block_bytes w j))
  read_block-write_block w w' w'' id j n xs buf read d small len buf_len h h' =
      let (d', b) = write_block-written w w' id xs d small len h in
      let (e, same_length, count, front) = read_block-bytes w' w'' j n buf read d' buf_len h' in
      (
        e,
        same_length,
        front
            ∙ sym (take-slice (is_os.byte w' f) (j * datablock_size) n datablock_size count)
            ∙ ap (take n) (bytes_after b),
      )
    where
      bytes_after :
          is_os.byte w' f ≡ written (is_os.byte w f) (id * datablock_size) xs
          → block_bytes w' j ≡ (if j == id then xs else block_bytes w j)
      bytes_after b = elim (ℕ_discrete j id) [
        | yes e ↦ rw ((==_iff j id).1 e) (
            ap (λ k. block_bytes w' k) e
            ∙ ap₂ (λ m k. slice m (id * datablock_size) k) b (sym len)
            ∙ slice-written_self (is_os.byte w f) (id * datablock_size) xs)
        | no ne ↦ rw (==_of_ne j id ne) (
            ap (λ m. slice m (j * datablock_size) datablock_size) b
            ∙ slice-written_apart (is_os.byte w f) (id * datablock_size) xs (j * datablock_size)
                datablock_size (apart ne))
      ]
        where
          apart :
              j ≢ id
              → (j * datablock_size + datablock_size ≤ id * datablock_size)
                ⊎ (id * datablock_size + length xs ≤ j * datablock_size)
          apart ne = elim (dec_lt j id) [
            | yes lt ↦ inl (omega arith)
            | no le ↦ inr (omega (arith, len))
          ]

  -- Where no file has the name, what `NewDatafile` returns is a data file of its full size; if the call of the
  -- system in a read of one of its blocks succeeds with `n` bytes, then `ReadBlock` succeeds, and the
  -- first `n` bytes that it leaves in the buffer are zeros.
  pub read_block-new_datafile :
      (w w' w'' : os.World) (name : os.Name) (id n : ℕ) (buf read : List ℕ)
      → os.exists name w ≡ false
      → new_datafile os name w ≡ (w', ok f)
      → length buf ≡ datablock_size
      → counted_read id buf w' ≡ (w'', ok (n, read))
      → IsDatafile w'
        × (read_block os f id buf w' ≡ (w'', ok read))
        × (length read ≡ datablock_size)
        × (take n read ≡ zeros n)
  unfolding new_datafile open_datafile
  read_block-new_datafile w w' w'' name id n buf read missing h len h' =
      let fill : os.File → Io os os.File =
        λ file. ◌>>=◌ os (os.truncate file datafile_size) (λ _. pure os file) in
      let (w₁, file, e₁, h₁) = first_ok os (os.create name w) fill w' f (rw missing at h) in
      let (w₂, _, e₂, h₂) =
        first_ok os (os.truncate file datafile_size w₁) (λ _. pure os file) w' f h₁ in
      let same : file ≡ f = ground (arith, ap (λ r. r.1) h₂) in
      let there : w₂ ≡ w' = ap (λ r. r.0) h₂ in
      let (o₁, s₁) = is_os.creates w w₁ name f (e₁ ∙ ap (λ g. (w₁, ok g)) same) in
      let (o₂, s₂, blank) =
        is_os.truncates w₁ w' f datafile_size o₁
          (ap (λ g. os.truncate g datafile_size w₁) (sym same) ∙ e₂ ∙ ap (λ v. (v, ok tt)) there) in
      let d : IsDatafile w' = record { opened = o₂; full = s₂ } in
      let (e, same_length, _, front) = read_block-bytes w' w'' id n buf read d len h' in
      (
        d,
        e,
        same_length,
        front
            ∙ slice-zeros (is_os.byte w' f) (id * datablock_size) n
                (λ i l. blank i (omega (arith, s₁))),
      )
