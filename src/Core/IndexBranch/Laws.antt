-- ===== src/Core/IndexBranch/Laws.antt =====
-- Insertion in a branch of the index on disk, key by key and pointer by pointer.
use pucrs_metadata_db.Base.{
  ℕ, ◌+◌, ◌-◌, ◌*◌, ◌%◌, ◌≤◌, ◌<◌, ◌≡◌, sym, ap, ◌∙◌, arith, ◌==◌, ==_iff, ==_of_ne, ltb, leb,
  lt→ltb, le→leb, leb_of_lt, ltb_of_le, if◌then◌else◌, Result, ok,
}
use native.Mathlib.Decide.{dec_lt, ℕ_discrete}
use pucrs_metadata_db.Dbio.Bytes.{Mem, peek16, peek32, poke16, poke32}
use pucrs_metadata_db.Dbio.Bytes.Laws.{
  Apart, poke16_outside, poke32_outside, peek16-poke16_self, peek32-poke32_self, peek16-Same,
  peek32-Same,
}
use pucrs_metadata_db.Dbio.DataBlock.{
  DataBlock, mem, size, with_mem, unshift, write, uint16, read_uint16,
}
use pucrs_metadata_db.Dbio.DataBlock.Laws.{read_uint16-ok, read_uint32-ok, write16-ok, write32-ok}
use pucrs_metadata_db.Dbio.DataBlock.Unshift.{IsByteMem, unshift_lem}
use pucrs_metadata_db.Core.IndexLeaf.{node_total_keys}
use pucrs_metadata_db.Core.IndexLeaf.Laws.{peek16_moved, peek32_moved}
use pucrs_metadata_db.Core.IndexBranch.{branch_key_at, branch_offset_of, insert_branch_entry}

-- The pointer before key `j`, and after key `j - 1`.
abbrev pub pointer_at : DataBlock → ℕ → Result ℕ
pointer_at b j = read_uint16 b (branch_offset_of j)

module _ (b : DataBlock) (total p key id : ℕ) (whole : size b ≡ 4096) (bytes : IsByteMem (mem b))
    (counted : node_total_keys b ≡ ok total) (room : total < 680) (inside : p ≤ total)
    (key_small : key < 4294967296) (id_small : id < 65536) where
  abbrev o : ℕ
  o = 9 + p * 6

  abbrev opened : DataBlock
  opened = unshift b (o + 0) 6

  abbrev m1 : Mem
  m1 = poke32 (mem opened) (o + 2) key

  abbrev m2 : Mem
  m2 = poke16 m1 (o + 6) id

  abbrev m3 : Mem
  m3 = poke16 m2 1 (total + 1)

  opened-size : size opened ≡ 4096
  unfolding unshift
  opened-size = whole

  -- The pointer at the gap is still there.
  opened-below : (q : ℕ) → q < o + 6 → mem opened q ≡ mem b q
  opened-below q h = ground (arith, unshift_lem b (o + 0) 6 q bytes)

  opened-above : (q : ℕ) → o ≤ q → q + 6 < 4096 → mem opened (q + 6) ≡ mem b q
  opened-above q lo hi = ground (arith, whole, unshift_lem b (o + 0) 6 (q + 6) bytes)

  m2-outside : (q : ℕ) → Apart (o + 2) 6 q 1 → m2 q ≡ mem opened q
  m2-outside q h =
      poke16_outside m1 (o + 6) id q (ground arith)
      ∙ poke32_outside (mem opened) (o + 2) key q (ground arith)

  m3-outside : (q : ℕ) → 3 ≤ q → Apart (o + 2) 6 q 1 → m3 q ≡ mem opened q
  m3-outside q x h = poke16_outside m2 1 (total + 1) q (omega arith) ∙ m2-outside q h

  counted_after : node_total_keys (with_mem opened m2) ≡ ok total
  unfolding node_total_keys
  counted_after =
      read_uint16-ok (with_mem opened m2) 1 (omega (arith, opened-size))
      ∙ ap ok (
          peek16-Same m2 (mem b) 1
            (λ q x y. m2-outside q (omega arith) ∙ opened-below q (omega arith)))
      ∙ sym (read_uint16-ok b 1 (omega (arith, whole)))
      ∙ counted

  insert_branch_entry-ok : insert_branch_entry b p key id ≡ ok (with_mem opened m3)
  unfolding insert_branch_entry
  insert_branch_entry-ok =
      rw
        (
          write32-ok opened (o + 2) key (omega (arith, opened-size)),
          write16-ok (with_mem opened m1) (o + 6) id (omega (arith, opened-size)),
          counted_after,
        )
        (ap (λ t. write (with_mem opened m2) 1 (uint16 t)) small
          ∙ write16-ok (with_mem opened m2) 1 (total + 1) (omega (arith, opened-size)))
    where
      small : (total + 1) % 65536 ≡ total + 1
      small = omega arith

  key_below : (j : ℕ) → j < p → peek32 m3 (9 + j * 6 + 2) ≡ peek32 (mem b) (9 + j * 6 + 2)
  key_below j h =
      peek32-Same m3 (mem b) (9 + j * 6 + 2)
        (λ q x y. m3-outside q (omega arith) (omega arith) ∙ opened-below q (omega arith))

  key_new : peek32 m3 (o + 2) ≡ key
  key_new =
      peek32-Same m3 m1 (o + 2) (λ q x y.
        poke16_outside m2 1 (total + 1) q (omega arith)
        ∙ poke16_outside m1 (o + 6) id q (omega arith))
      ∙ peek32-poke32_self (mem opened) (o + 2) key key_small

  moved : (q : ℕ) → o + 2 ≤ q → q + 6 < 4096 → m3 (q + 6) ≡ mem b q
  moved q x y = m3-outside (q + 6) (omega arith) (omega arith) ∙ opened-above q (omega arith) y

  key_above :
      (j : ℕ) → p ≤ j → j < total → peek32 m3 (9 + j * 6 + 2 + 6) ≡ peek32 (mem b) (9 + j * 6 + 2)
  key_above j h k =
      let at = 9 + j * 6 + 2 in
      peek32_moved m3 (mem b) (at + 6) at (moved at (omega arith) (omega arith))
        (ap m3 (omega arith) ∙ moved (at + 1) (omega arith) (omega arith))
        (ap m3 (omega arith) ∙ moved (at + 2) (omega arith) (omega arith))
        (ap m3 (omega arith) ∙ moved (at + 3) (omega arith) (omega arith))

  pointer_below : (j : ℕ) → j ≤ p → peek16 m3 (9 + j * 6) ≡ peek16 (mem b) (9 + j * 6)
  pointer_below j h =
      peek16-Same m3 (mem b) (9 + j * 6)
        (λ q x y. m3-outside q (omega arith) (omega arith) ∙ opened-below q (omega arith))

  pointer_new : peek16 m3 (o + 6) ≡ id
  pointer_new =
      peek16-Same m3 m2 (o + 6) (λ q x y. poke16_outside m2 1 (total + 1) q (omega arith))
      ∙ peek16-poke16_self m1 (o + 6) id id_small

  pointer_above :
      (j : ℕ) → p < j → j ≤ total → peek16 m3 (9 + j * 6 + 6) ≡ peek16 (mem b) (9 + j * 6)
  pointer_above j h k =
      let at = 9 + j * 6 in
      peek16_moved m3 (mem b) (at + 6) at (moved at (omega arith) (omega arith))
        (ap m3 (omega arith) ∙ moved (at + 1) (omega arith) (omega arith))

  abbrev final : DataBlock
  final = with_mem opened m3

  key_read : (j : ℕ) → j ≤ total → branch_key_at final j ≡ ok (peek32 m3 (9 + j * 6 + 2))
  unfolding branch_key_at
  key_read j h = read_uint32-ok final (9 + j * 6 + 2) (omega (arith, opened-size))

  old_key_read : (j : ℕ) → j ≤ total → branch_key_at b j ≡ ok (peek32 (mem b) (9 + j * 6 + 2))
  unfolding branch_key_at
  old_key_read j h = read_uint32-ok b (9 + j * 6 + 2) (omega (arith, whole))

  keys_inserted :
      (j : ℕ)
      → j ≤ total
      → branch_key_at final j
        ≡ (if j == p then ok key else branch_key_at b (if ltb j p then j else j - 1))
  keys_inserted j h = key_read j h ∙ elim (ℕ_discrete j p) [
    | yes e ↦ rw ((==_iff j p).1 e) (ap ok (ap (λ k. peek32 m3 (9 + k * 6 + 2)) e ∙ key_new))
    | no ne ↦ rw (==_of_ne j p ne) (elim (dec_lt j p) [
      | yes less ↦ rw (lt→ltb j p less) (ap ok (key_below j less) ∙ sym (old_key_read j h))
      | no more ↦ rw (ltb_of_le j p (omega arith)) (
          ap (λ x. ok (peek32 m3 x)) {x = 9 + j * 6 + 2} {y = 9 + (j - 1) * 6 + 2 + 6} (omega arith)
          ∙ ap ok (key_above (j - 1) (omega arith) (omega arith))
          ∙ sym (old_key_read (j - 1) (omega arith)))
    ])
  ]

  pointers_inserted :
      (j : ℕ)
      → j ≤ total + 1
      → pointer_at final j
        ≡ (if j == p + 1 then ok id else pointer_at b (if leb j p then j else j - 1))
  pointers_inserted j h =
      read_uint16-ok final (9 + j * 6) (omega (arith, opened-size)) ∙ elim (ℕ_discrete j (p + 1)) [
        | yes e ↦
            rw ((==_iff j (p + 1)).1 e) (
              ap ok
                (ap (λ k. peek16 m3 (9 + k * 6)) e ∙ ap (peek16 m3) (omega arith) ∙ pointer_new))
        | no ne ↦ rw (==_of_ne j (p + 1) ne) (elim (dec_lt p j) [
          | no low ↦ rw (le→leb j p (omega arith)) (
              ap ok (pointer_below j (omega arith))
              ∙ sym (read_uint16-ok b (9 + j * 6) (omega (arith, whole))))
          | yes high ↦ rw (leb_of_lt j p high) (
              ap (λ x. ok (peek16 m3 x)) {x = 9 + j * 6} {y = 9 + (j - 1) * 6 + 6} (omega arith)
              ∙ ap ok (pointer_above (j - 1) (omega arith) (omega arith))
              ∙ sym (read_uint16-ok b (9 + (j - 1) * 6) (omega (arith, whole))))
        ])
      ]

  -- Inserting a key at a position up to the number of keys, with the node above it, in a whole block of
  -- bytes with fewer than 680 keys, puts the key at that position and the node behind it, keeps the keys
  -- before and the pointers up to that position, moves the others up by one, and counts one key more.
  pub insert_branch_entry-inserts :
      (b' : DataBlock) × (insert_branch_entry b p key id ≡ ok b')
      × (node_total_keys b' ≡ ok (total + 1))
      × ((j : ℕ)
          → j ≤ total
          → branch_key_at b' j
            ≡ (if j == p then ok key else branch_key_at b (if ltb j p then j else j - 1)))
      × ((j : ℕ)
          → j ≤ total + 1
          → pointer_at b' j
            ≡ (if j == p + 1 then ok id else pointer_at b (if leb j p then j else j - 1)))
  unfolding node_total_keys
  insert_branch_entry-inserts = (
    final,
    insert_branch_entry-ok,
    read_uint16-ok final 1 (omega (arith, opened-size))
        ∙ ap ok (peek16-poke16_self m2 1 (total + 1) (omega arith)),
    keys_inserted,
    pointers_inserted,
  )
