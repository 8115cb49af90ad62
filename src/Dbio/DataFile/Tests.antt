-- ===== src/Dbio/DataFile/Tests.antt =====
-- A world with one file, and a data file in it.
use pucrs_metadata_db.Base.{
  ℕ, zero, suc, ◌+◌, ◌*◌, ◌≤◌, ◌<◌, ◌≡◌, ◌⊎◌, refl, sym, ap, fun_ext, ◌∙◌, arith, Bool, true, false,
  leb, ltb, if◌then◌else◌, List, [], ◌∷◌, ◌++◌, length, take, Result, ok, err, io_error,
}
use pucrs_metadata_db.Dbio.Bytes.{Mem, slice}
use pucrs_metadata_db.Dbio.DataFile.{datafile_size, datablock_size}
use pucrs_metadata_db.Dbio.DataFile.Disk.{
  Os, open_datafile, new_datafile, seek, limited_read, read_block, write_block,
}
use pucrs_metadata_db.Dbio.DataFile.Os.{written, IsOs}
use pucrs_metadata_db.Dbio.DataFile.Blocks.{
  zeros, IsDatafile, counted_read, write_block_in_bounds, read_block-write_block,
  read_block-new_datafile,
}

record World : Type 0 where
  there : Bool
  size : ℕ
  byte : Mem
  position : ℕ

abbrev one_file : Os
one_file = record {
  World = World;
  Name = Unit {0};
  File = Unit {0};
  exists = λ name w. w.there;
  open_file = λ name w. (w, ok tt);
  create = λ name w. (record { there = true; size = 0; byte = λ _. 0; position = 0 }, ok tt);
  truncate =
      λ f n w. (record w { size = n; byte = λ i. if ltb i w.size then w.byte i else 0 }, ok tt);
  seek = λ f n w. (record w { position = n }, ok tt);
  read = λ f xs w. (
    w,
    if leb (w.position + length xs) w.size
        then ok (length xs, slice w.byte w.position (length xs))
        else err io_error,
  );
  write = λ f xs w. (
    record w {
      byte = written w.byte w.position xs;
      size = if leb (w.position + length xs) w.size then w.size else w.position + length xs;
    },
    ok tt,
  );
  sync = λ f w. (w, ok tt);
  close = λ f w. (w, ok tt);
}

no_bytes : (i : ℕ) → ◌≡◌ {A = ℕ} (if ltb i 0 then 0 else 0) 0
no_bytes i = ground arith

length-slice : (m : Mem) (p n : ℕ) → length (slice m p n) ≡ n
unfolding slice
length-slice m p zero = refl
length-slice m p (suc n) = ap suc (length-slice m (p + 1) n)

take-slice_all : (m : Mem) (p n : ℕ) → take n (slice m p n) ≡ slice m p n
unfolding slice
take-slice_all m p zero = refl
take-slice_all m p (suc n) = ap (λ (xs : List ℕ). m p ∷ xs) (take-slice_all m (p + 1) n)

read_inside :
    (w w' : World) (xs ys : List ℕ) (n : ℕ)
    → one_file.read tt xs w ≡ (w', ok (n, ys))
    → (n ≡ length xs) × (ys ≡ slice w.byte w.position n)
read_inside w w' xs ys n h = (ground (arith, h), ground (arith, h))

filled_up : (w : World) (i : ℕ) → w.size ≤ i → (if ltb i w.size then w.byte i else 0) ≡ 0
filled_up w i h = ground (arith, h)

abbrev one_file-IsOs : IsOs one_file
one_file-IsOs = record {
  IsOpen = λ w f. Unit {0};
  size = λ w f. w.size;
  byte = λ w f. w.byte;
  position = λ w f. w.position;
  seeks = λ w w' f n o h.
      let same = sym (ap (λ (r : World × Result (Unit {0})). r.0) h) in
      (
        tt,
        ap (λ (v : World). v.size) same,
        ap (λ (v : World). v.byte) same,
        ap (λ (v : World). v.position) same,
      );
  reads = λ w w' f xs ys n o h.
      let (count, front) = read_inside w w' xs ys n h in
      (
        omega (arith, count),
        ap length front ∙ length-slice w.byte w.position n ∙ count,
        ap (take n) front ∙ take-slice_all w.byte w.position n,
      );
  writes = λ w w' f xs o h.
      let same = sym (ap (λ (r : World × Result (Unit {0})). r.0) h) in
      (tt, ap (λ (v : World). v.byte) same, ap (λ (v : World). v.size) same);
  syncs = λ w w' f o h.
      let same = sym (ap (λ (r : World × Result (Unit {0})). r.0) h) in
      (tt, ap (λ (v : World). v.byte) same, ap (λ (v : World). v.size) same);
  creates = λ w w' name f h. (tt, sym (ap (λ (r : World × Result (Unit {0})). r.0.size) h));
  truncates = λ w w' f n o h.
      let same = sym (ap (λ (r : World × Result (Unit {0})). r.0) h) in
      (
        tt,
        ap (λ (v : World). v.size) same,
        λ i l. ap (λ (v : World). v.byte i) same ∙ filled_up w i l,
      );
}

abbrev empty_world : World
empty_world = record { there = false; size = 0; byte = λ _. 0; position = 0 }

abbrev zero_file : World
zero_file = record { there = true; size = datafile_size; byte = λ _. 0; position = 0 }

abbrev sevens : ℕ → List ℕ
sevens zero = []
sevens (suc n) = 7 ∷ sevens n

length-sevens : (n : ℕ) → length (sevens n) ≡ n
length-sevens zero = refl
length-sevens (suc n) = ap suc (length-sevens n)

abbrev filled : World
filled = record {
  there = true;
  size = datafile_size;
  byte = written (λ _. 0) (3 * datablock_size) (sevens datablock_size);
  position = 3 * datablock_size;
}

zero_file-IsDatafile : IsDatafile one_file-IsOs tt zero_file
zero_file-IsDatafile = record { opened = tt; full = refl }

length-zeros : (n : ℕ) → length (zeros n) ≡ n
length-zeros zero = refl
length-zeros (suc n) = ap suc (length-zeros n)

write_fills : write_block one_file tt 3 (sevens datablock_size) zero_file ≡ (filled, ok tt)
unfolding write_block seek
write_fills = refl

write_block_in_bounds_example :
    (3 * datablock_size + datablock_size ≤ datafile_size)
    × (one_file-IsOs.size filled tt ≡ datafile_size)
    × ((i : ℕ)
        → (i < 3 * datablock_size) ⊎ (3 * datablock_size + datablock_size ≤ i)
        → filled.byte i ≡ zero_file.byte i)
write_block_in_bounds_example =
    write_block_in_bounds one_file-IsOs tt zero_file filled 3 (sevens datablock_size)
      zero_file-IsDatafile (omega arith) (length-sevens datablock_size) write_fills

reads_back :
    counted_read one_file-IsOs tt 3 (zeros datablock_size) filled
    ≡ (filled, ok (datablock_size, slice filled.byte (3 * datablock_size) datablock_size ++ []))
unfolding seek limited_read
reads_back = refl

read_block-write_block_example :
    (read_block one_file tt 3 (zeros datablock_size) filled
      ≡ (filled, ok (slice filled.byte (3 * datablock_size) datablock_size ++ [])))
    × (length (slice filled.byte (3 * datablock_size) datablock_size ++ []) ≡ datablock_size)
    × (take datablock_size (slice filled.byte (3 * datablock_size) datablock_size ++ [])
        ≡ take datablock_size (sevens datablock_size))
read_block-write_block_example =
    read_block-write_block one_file-IsOs tt zero_file filled filled 3 3 datablock_size
      (sevens datablock_size) (zeros datablock_size) _ zero_file-IsDatafile (omega arith)
      (length-sevens datablock_size) (length-zeros datablock_size) write_fills reads_back

opens : new_datafile one_file tt empty_world ≡ (zero_file, ok tt)
unfolding new_datafile open_datafile
opens =
    ap (λ b. (record { there = true; size = datafile_size; byte = b; position = 0 }, ok tt))
      (fun_ext λ (i : ℕ). no_bytes i)

abbrev blank : List ℕ
blank = slice (λ _. 0) (2 * datablock_size) datablock_size ++ []

reads_blank :
    counted_read one_file-IsOs tt 2 (zeros datablock_size) zero_file
    ≡ (record zero_file { position = 2 * datablock_size }, ok (datablock_size, blank))
unfolding seek limited_read
reads_blank = refl

read_block-new_datafile_example :
    IsDatafile one_file-IsOs tt zero_file
    × (read_block one_file tt 2 (zeros datablock_size) zero_file
        ≡ (record zero_file { position = 2 * datablock_size }, ok blank))
    × (length blank ≡ datablock_size)
    × (take datablock_size blank ≡ zeros datablock_size)
read_block-new_datafile_example =
    read_block-new_datafile one_file-IsOs tt empty_world zero_file _ tt 2 datablock_size
      (zeros datablock_size) blank refl opens (length-zeros datablock_size) reads_blank
