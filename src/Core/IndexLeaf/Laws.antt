-- ===== src/Core/IndexLeaf/Laws.antt =====
-- Insertion in a leaf of the index, entry by entry.
use pucrs_metadata_db.Base.{
  ℕ, ◌+◌, ◌-◌, ◌*◌, ◌%◌, ◌≤◌, ◌<◌, ◌≡◌, ◌≢◌, sym, ap, ◌∙◌, arith, ◌==◌, ==_of_ne, ==_iff, ltb,
  lt→ltb, ltb_of_le, if◌then◌else◌, ok,
}
use native.Mathlib.Decide.{dec_lt, ℕ_discrete}
use pucrs_metadata_db.Dbio.Bytes.{Mem, peek16, peek32, poke16, poke32}
use pucrs_metadata_db.Dbio.Bytes.Laws.{
  Apart, poke16_outside, poke32_outside, peek16-poke16_self, peek32-poke32_self, peek16-Same,
  peek32-Same,
}
use pucrs_metadata_db.Dbio.DataBlock.{DataBlock, mem, size, with_mem, unshift, write, uint16}
use pucrs_metadata_db.Dbio.DataBlock.Laws.{read_uint16-ok, read_uint32-ok, write16-ok, write32-ok}
use pucrs_metadata_db.Dbio.DataBlock.Unshift.{IsByteMem, unshift_lem}
use pucrs_metadata_db.Core.IndexLeaf.{IndexEntry, node_total_keys, read_entry, insert_entry}

abbrev pub entry_of : Mem → ℕ → IndexEntry
entry_of m o = record {
  key = peek32 m (o + 0);
  row_id = record { data_block_id = peek16 m (o + 4); local_id = peek16 m (o + 6) };
}

pub read_entry-ok :
    (b : DataBlock) (o : ℕ) → o + 8 ≤ size b → read_entry b o ≡ ok (entry_of (mem b) o)
unfolding read_entry
read_entry-ok b o h = rw (
  read_uint32-ok b (o + 0) (omega arith),
  read_uint16-ok b (o + 4) (omega arith),
  read_uint16-ok b (o + 6) (omega arith),
)

pub peek16_moved :
    (m m' : Mem) (p q : ℕ) → m p ≡ m' q → m (p + 1) ≡ m' (q + 1) → peek16 m p ≡ peek16 m' q
unfolding peek16
peek16_moved m m' p q x y = omega (arith, x, y)

pub peek32_moved :
    (m m' : Mem) (p q : ℕ)
    → m p ≡ m' q
    → m (p + 1) ≡ m' (q + 1)
    → m (p + 2) ≡ m' (q + 2)
    → m (p + 3) ≡ m' (q + 3)
    → peek32 m p ≡ peek32 m' q
unfolding peek32
peek32_moved m m' p q x y z w = omega (arith, x, y, z, w)

-- Eight bytes that agree are the same entry.
pub entry_moved :
    (m m' : Mem) (p q : ℕ)
    → ((i j : ℕ) → p ≤ i → i < p + 8 → j + p ≡ i + q → m i ≡ m' j)
    → entry_of m p ≡ entry_of m' q
entry_moved m m' p q h =
    let a =
      peek32_moved m m' (p + 0) (q + 0)
        (h (p + 0) (q + 0) (omega arith) (omega arith) (omega arith))
        (h (p + 0 + 1) (q + 0 + 1) (omega arith) (omega arith) (omega arith))
        (h (p + 0 + 2) (q + 0 + 2) (omega arith) (omega arith) (omega arith))
        (h (p + 0 + 3) (q + 0 + 3) (omega arith) (omega arith) (omega arith)) in
    let b =
      peek16_moved m m' (p + 4) (q + 4)
        (h (p + 4) (q + 4) (omega arith) (omega arith) (omega arith))
        (h (p + 4 + 1) (q + 4 + 1) (omega arith) (omega arith) (omega arith)) in
    let c =
      peek16_moved m m' (p + 6) (q + 6)
        (h (p + 6) (q + 6) (omega arith) (omega arith) (omega arith))
        (h (p + 6 + 1) (q + 6 + 1) (omega arith) (omega arith) (omega arith)) in
    rw (a, b, c)

module _ (b : DataBlock) (total p : ℕ) (entry : IndexEntry) (whole : size b ≡ 4096)
    (bytes : IsByteMem (mem b)) (counted : node_total_keys b ≡ ok total) (room : total < 510)
    (inside : p ≤ total) (key_small : entry.key < 4294967296)
    (block_small : entry.row_id.data_block_id < 65536)
    (local_small : entry.row_id.local_id < 65536) where
  abbrev o : ℕ
  o = 9 + p * 8

  abbrev opened : DataBlock
  opened = if p == total then b else unshift b o 8

  abbrev m1 : Mem
  m1 = poke32 (mem opened) (o + 0) entry.key

  abbrev m2 : Mem
  m2 = poke16 m1 (o + 4) entry.row_id.data_block_id

  abbrev m3 : Mem
  m3 = poke16 m2 (o + 6) entry.row_id.local_id

  abbrev m4 : Mem
  m4 = poke16 m3 1 (total + 1)

  opened-size : size opened ≡ 4096
  unfolding unshift
  opened-size = ground (arith, whole)

  insert_entry-ok : insert_entry b p entry ≡ ok (with_mem opened m4)
  unfolding insert_entry
  insert_entry-ok =
      rw
        (
          counted,
          write32-ok opened (o + 0) entry.key (omega (arith, opened-size)),
          write16-ok (with_mem opened m1) (o + 4) entry.row_id.data_block_id
              (omega (arith, opened-size)),
          write16-ok (with_mem opened m2) (o + 6) entry.row_id.local_id
              (omega (arith, opened-size)),
        )
        (ap (λ t. write (with_mem opened m3) 1 (uint16 t)) small
          ∙ write16-ok (with_mem opened m3) 1 (total + 1) (omega (arith, opened-size)))
    where
      small : (total + 1) % 65536 ≡ total + 1
      small = omega arith

  m4-outside : (q : ℕ) → 3 ≤ q → Apart o 8 q 1 → m4 q ≡ mem opened q
  m4-outside q x y =
      poke16_outside m3 1 (total + 1) q (omega arith)
      ∙ poke16_outside m2 (o + 6) entry.row_id.local_id q (omega arith)
      ∙ poke16_outside m1 (o + 4) entry.row_id.data_block_id q (omega arith)
      ∙ poke32_outside (mem opened) (o + 0) entry.key q (omega arith)

  opened-below : (q : ℕ) → q < o → mem opened q ≡ mem b q
  opened-below q h = ground (arith, unshift_lem b o 8 q bytes)

  opened-above : (q : ℕ) → p ≢ total → o ≤ q → q + 8 < 4096 → mem opened (q + 8) ≡ mem b q
  opened-above q ne lo hi =
      ground (arith, whole, ==_of_ne p total ne, unshift_lem b o 8 (q + 8) bytes)

  new_entry : entry_of m4 o ≡ entry
  new_entry =
      let k =
        peek32-Same m4 m1 (o + 0) (λ q x y.
          poke16_outside m3 1 (total + 1) q (omega arith)
          ∙ poke16_outside m2 (o + 6) entry.row_id.local_id q (omega arith)
          ∙ poke16_outside m1 (o + 4) entry.row_id.data_block_id q (omega arith))
        ∙ peek32-poke32_self (mem opened) (o + 0) entry.key key_small in
      let d =
        peek16-Same m4 m2 (o + 4) (λ q x y.
          poke16_outside m3 1 (total + 1) q (omega arith)
          ∙ poke16_outside m2 (o + 6) entry.row_id.local_id q (omega arith))
        ∙ peek16-poke16_self m1 (o + 4) entry.row_id.data_block_id block_small in
      let l =
        peek16-Same m4 m3 (o + 6) (λ q x y. poke16_outside m3 1 (total + 1) q (omega arith))
        ∙ peek16-poke16_self m2 (o + 6) entry.row_id.local_id local_small in
      rw (k, d, l)

  entry_before : (j : ℕ) → j < p → entry_of m4 (9 + j * 8) ≡ entry_of (mem b) (9 + j * 8)
  entry_before j h = entry_moved m4 (mem b) (9 + j * 8) (9 + j * 8) (λ i k x y z.
      m4-outside i (omega arith) (omega arith)
      ∙ opened-below i (omega arith)
      ∙ ap (mem b) (omega (arith, z)))

  entry_after :
      (j : ℕ) → p < j → j ≤ total → entry_of m4 (9 + j * 8) ≡ entry_of (mem b) (9 + (j - 1) * 8)
  entry_after j h k = entry_moved m4 (mem b) (9 + j * 8) (9 + (j - 1) * 8) (λ i q x y z.
      m4-outside i (omega arith) (omega arith)
      ∙ ap (mem opened) (omega (arith, z))
      ∙ opened-above q (λ e. omega (arith, e)) (omega arith) (omega arith))

  entries_inserted :
      (j : ℕ)
      → j ≤ total
      → read_entry (with_mem opened m4) (9 + j * 8)
        ≡ (if j == p then ok entry else read_entry b (9 + (if ltb j p then j else j - 1) * 8))
  entries_inserted j h =
      read_entry-ok (with_mem opened m4) (9 + j * 8) (omega (arith, opened-size))
      ∙ elim (ℕ_discrete j p) [
        | yes e ↦ rw ((==_iff j p).1 e) (ap ok (ap (λ k. entry_of m4 (9 + k * 8)) e ∙ new_entry))
        | no ne ↦ rw (==_of_ne j p ne) (elim (dec_lt j p) [
          | yes less ↦ rw (lt→ltb j p less) (
              ap ok (entry_before j less)
              ∙ sym (read_entry-ok b (9 + j * 8) (omega (arith, whole))))
          | no more ↦ rw (ltb_of_le j p (omega arith)) (
              ap ok (entry_after j (omega arith) h)
              ∙ sym (read_entry-ok b (9 + (j - 1) * 8) (omega (arith, whole))))
        ])
      ]

  -- Inserting an entry at a position up to the number of keys, in a whole block of bytes with
  -- fewer than 510 keys, writes
  -- it there, keeps the entries before it, moves those from the position on up by one, and counts
  -- one key more.
  pub insert_entry-inserts :
      (b' : DataBlock) × (insert_entry b p entry ≡ ok b')
      × (node_total_keys b' ≡ ok (total + 1))
      × ((j : ℕ)
          → j ≤ total
          → read_entry b' (9 + j * 8)
            ≡ (if j == p then ok entry else read_entry b (9 + (if ltb j p then j else j - 1) * 8)))
  unfolding node_total_keys
  insert_entry-inserts = (
    with_mem opened m4,
    insert_entry-ok,
    read_uint16-ok (with_mem opened m4) 1 (omega (arith, opened-size))
        ∙ ap ok (peek16-poke16_self m3 1 (total + 1) (omega arith)),
    entries_inserted,
  )
