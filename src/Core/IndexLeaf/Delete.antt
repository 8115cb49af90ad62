-- ===== src/Core/IndexLeaf/Delete.antt =====
-- Deletion in a leaf of the index, entry by entry.
use pucrs_metadata_db.Base.{
  ℕ, ◌+◌, ◌-◌, ◌*◌, ◌≤◌, ◌<◌, ◌≡◌, sym, ap, ◌∙◌, arith, ltb, lt→ltb, le→leb, ltb_of_le,
  if◌then◌else◌, ok,
}
use native.Mathlib.Decide.{dec_lt}
use pucrs_metadata_db.Dbio.Bytes.{Mem, poke16, copy_down}
use pucrs_metadata_db.Dbio.Bytes.Laws.{poke16_outside, peek16-poke16_self}
use pucrs_metadata_db.Dbio.DataBlock.{DataBlock, mem, size, with_mem}
use pucrs_metadata_db.Dbio.DataBlock.Laws.{read_uint16-ok, write16-ok}
use pucrs_metadata_db.Core.IndexLeaf.{IndexEntry, node_total_keys, read_entry, delete_entry}
use pucrs_metadata_db.Core.IndexLeaf.Laws.{entry_of, read_entry-ok, entry_moved}

module _ (b : DataBlock) (total p : ℕ) (whole : size b ≡ 4096)
    (counted : node_total_keys b ≡ ok total) (room : total ≤ 510) (inside : p < total) where
  abbrev o : ℕ
  o = 9 + p * 8

  abbrev closed : Mem
  closed = copy_down (mem b) (size b) o 8

  abbrev final : Mem
  final = poke16 closed 1 (total - 1)

  final-below : (q : ℕ) → 3 ≤ q → q < o → final q ≡ mem b q
  unfolding copy_down
  final-below q x y = poke16_outside closed 1 (total - 1) q (omega arith) ∙ ground arith

  final-above : (q : ℕ) → o ≤ q → q + 8 < 4096 → final q ≡ mem b (q + 8)
  unfolding copy_down
  final-above q x y = poke16_outside closed 1 (total - 1) q (omega arith) ∙ ground (arith, whole)

  delete_entry-ok : delete_entry b p ≡ ok (entry_of (mem b) o, with_mem b final)
  unfolding delete_entry
  delete_entry-ok = rw (
    counted,
    lt→ltb p total inside,
    read_entry-ok b o (omega (arith, whole)),
    le→leb (o + 8) (size b) (omega (arith, whole)),
    write16-ok (with_mem b closed) 1 (total - 1) (omega (arith, whole)),
  )

  entry_below : (j : ℕ) → j < p → entry_of final (9 + j * 8) ≡ entry_of (mem b) (9 + j * 8)
  entry_below j h =
      entry_moved final (mem b) (9 + j * 8) (9 + j * 8)
        (λ i k x y z. final-below i (omega arith) (omega arith) ∙ ap (mem b) (omega (arith, z)))

  entry_above :
      (j : ℕ)
      → p ≤ j
      → j + 1 < total
      → entry_of final (9 + j * 8) ≡ entry_of (mem b) (9 + (j + 1) * 8)
  entry_above j h k =
      entry_moved final (mem b) (9 + j * 8) (9 + (j + 1) * 8)
        (λ i q x y z. final-above i (omega arith) (omega arith) ∙ ap (mem b) (omega (arith, z)))

  left :
      (j : ℕ)
      → j + 1 < total
      → entry_of final (9 + j * 8) ≡ entry_of (mem b) (9 + (if ltb j p then j else j + 1) * 8)
  left j h = elim (dec_lt j p) [
    | yes less ↦ rw (lt→ltb j p less) (entry_below j less)
    | no more ↦ rw (ltb_of_le j p (omega arith)) (entry_above j (omega arith) h)
  ]

  -- In a whole block with at most 510 keys, deleting the entry at a position below the number of keys
  -- returns that entry, keeps the entries before it, moves those after it down by one, and counts one
  -- key less.
  pub delete_entry-deletes :
      (entry : IndexEntry) × (b' : DataBlock) × (delete_entry b p ≡ ok (entry, b'))
      × (read_entry b (9 + p * 8) ≡ ok entry)
      × (node_total_keys b' ≡ ok (total - 1))
      × ((j : ℕ)
          → j + 1 < total
          → read_entry b' (9 + j * 8) ≡ read_entry b (9 + (if ltb j p then j else j + 1) * 8))
  unfolding node_total_keys
  delete_entry-deletes = (
    entry_of (mem b) o,
    with_mem b final,
    delete_entry-ok,
    read_entry-ok b o (omega (arith, whole)),
    read_uint16-ok (with_mem b final) 1 (omega (arith, whole))
        ∙ ap ok (peek16-poke16_self closed 1 (total - 1) (omega arith)),
    λ j h.
        read_entry-ok (with_mem b final) (9 + j * 8) (omega (arith, whole))
        ∙ ap ok (left j h)
        ∙ sym (read_entry-ok b (9 + (if ltb j p then j else j + 1) * 8) (ground (arith, whole))),
  )
