-- ===== src/Core/RecordBlock/SoftRemove.antt =====
-- `SoftRemove` clears three fields of two bytes by writes of four. The last passes the end of the
-- header.
use pucrs_metadata_db.Base.{
  ℕ, suc, ◌+◌, ◌%◌, ◌≤◌, ◌<◌, ◌≡◌, ap, ◌∙◌, arith, ◌==◌, if◌then◌else◌, ok, ◌>>=◌,
}
use pucrs_metadata_db.Dbio.Bytes.{Mem, peek16, peek32, poke16, poke32}
use pucrs_metadata_db.Dbio.Bytes.Laws.{Apart, peek16-Same, poke16_outside, poke32_outside}
use pucrs_metadata_db.Dbio.DataBlock.{DataBlock, mem, with_mem}
use pucrs_metadata_db.Dbio.DataBlock.Laws.{read_uint16-ok, read_uint32-ok, write16-ok, write32-ok}
use pucrs_metadata_db.Dbio.DataBlock.Unshift.{IsByteMem}
use pucrs_metadata_db.Core.RecordBlock.{sub16, parse_header}
use pucrs_metadata_db.Core.RecordBlock.Headers.{
  at, id_of, size_of, total_of, used_of, header_ptr-ok, utilization-ok, total_headers_check-ok,
  parse_header-ok,
}
use pucrs_metadata_db.Core.RecordBlock.Methods.{soft_remove, prev_block_id}
use pucrs_metadata_db.Core.RecordBlock.Remove.{IsBlock}

module _ {b : DataBlock} (v : IsBlock b) (i : ℕ) (listed : i < total_of (mem b)) where
  abbrev m1 : Mem
  m1 = poke32 (mem b) (at i + 6) 0

  abbrev m2 : Mem
  m2 = poke32 m1 (at i + 8) 0

  abbrev m3 : Mem
  m3 = poke32 m2 (at i + 10) 0

  abbrev soft_mem : Mem
  soft_mem = poke16 m3 4094 (sub16 (used_of (mem b)) (size_of (mem b) i))

  abbrev soft_removed : DataBlock
  soft_removed = with_mem b soft_mem

  small : i < 340
  small = omega (arith, v.table)

  m3_outside : (q : ℕ) → Apart (at i + 6) 8 q 1 → m3 q ≡ mem b q
  m3_outside q h =
      poke32_outside m2 (at i + 10) 0 q (omega arith)
      ∙ poke32_outside m1 (at i + 8) 0 q (omega arith)
      ∙ poke32_outside (mem b) (at i + 6) 0 q (omega arith)

  used_same : used_of m3 ≡ used_of (mem b)
  used_same =
      ap (λ u. if u == 0 then 8 else u)
        (peek16-Same m3 (mem b) 4094 (λ k x y. m3_outside k (omega (arith, v.table))))

  soft_remove-ok : soft_remove b i ≡ ok soft_removed
  unfolding soft_remove
  soft_remove-ok = rw (
    total_headers_check-ok b v.whole i listed,
    header_ptr-ok b v.whole i small,
    read_uint32-ok b (at i + 0) (omega (arith, v.whole)),
    read_uint16-ok b (at i + 4) (omega (arith, v.whole)),
    read_uint16-ok b (at i + 6) (omega (arith, v.whole)),
    write32-ok b (at i + 6) 0 (omega (arith, v.whole)),
    write32-ok (with_mem b m1) (at i + 8) 0 (omega (arith, v.whole)),
    write32-ok (with_mem b m2) (at i + 10) 0 (omega (arith, v.whole)),
    utilization-ok (with_mem b m3) v.whole,
    used_same,
    write16-ok (with_mem b m3) 4094 (sub16 (used_of (mem b)) (size_of (mem b) i))
        (omega (arith, v.whole)),
  )

  -- The two bytes behind the header are zero.
  spilled : (q : ℕ) → at i + 12 ≤ q → q < at i + 14 → soft_mem q ≡ 0
  unfolding poke32 poke16
  spilled q a c = ground (arith, v.table)

  soft_outside : (q : ℕ) → Apart (at i + 6) 8 q 1 → Apart 4094 2 q 1 → soft_mem q ≡ mem b q
  soft_outside q a c = poke16_outside m3 4094 _ q c ∙ m3_outside q a

-- The header before that of a soft removal.
module _ {b : DataBlock} (v : IsBlock b) (i : ℕ) (listed : suc i < total_of (mem b)) where
  abbrev m' : Mem
  m' = soft_mem v (suc i) listed

  id_spilled : IsByteMem (mem b) → id_of m' i ≡ id_of (mem b) i % 65536
  unfolding peek32
  id_spilled bytes = omega (
    arith,
    spilled v (suc i) listed (at i + 0) (omega (arith, v.table)) (omega (arith, v.table)),
    spilled v (suc i) listed (at i + 0 + 1) (omega (arith, v.table)) (omega (arith, v.table)),
    soft_outside v (suc i) listed (at i + 0 + 2) (omega (arith, v.table)) (omega (arith, v.table)),
    soft_outside v (suc i) listed (at i + 0 + 3) (omega (arith, v.table)) (omega (arith, v.table)),
    bytes (at i + 0 + 2),
    bytes (at i + 0 + 3),
  )

  field_same : (o : ℕ) → 4 ≤ o → o + 2 ≤ 12 → peek16 m' (at i + o) ≡ peek16 (mem b) (at i + o)
  field_same o lo hi =
      peek16-Same m' (mem b) (at i + o)
        (λ k x y. soft_outside v (suc i) listed k (omega (arith, v.table)) (omega (arith, v.table)))

-- In a well-formed block of bytes, soft removal of any record but the first clears the upper half of the record ID in the header
-- before it: of that ID only the rest modulo 65536 is left. All else in that header is kept.
pub soft_remove_neighbour :
    {b : DataBlock} (v : IsBlock b) (i : ℕ)
    → IsByteMem (mem b)
    → suc i < total_of (mem b)
    → (soft_remove b (suc i) >>= λ b'. parse_header b' i)
      ≡ (parse_header b i >>= λ h. ok (record h { record_id = h.record_id % 65536 }))
soft_remove_neighbour {b} v i bytes listed =
    let in_table : i < 340 = omega (arith, v.table) in
    rw
      (
        soft_remove-ok v (suc i) listed,
        parse_header-ok (soft_removed v (suc i) listed) v.whole i in_table,
        parse_header-ok b v.whole i in_table,
      )
      (ground (
        arith,
        id_spilled v i listed bytes,
        field_same v i listed 4,
        field_same v i listed 6,
        field_same v i listed 8,
        field_same v i listed 10,
      ))

two_zeros : (m : Mem) (q : ℕ) → m q ≡ 0 → m (q + 1) ≡ 0 → peek16 m q ≡ 0
unfolding peek16
two_zeros m q a c = omega arith

-- Soft removal of the first record of a well-formed block clears the block's pointer to the previous block.
pub soft_remove_first :
    {b : DataBlock} (v : IsBlock b)
    → 0 < total_of (mem b)
    → (soft_remove b 0 >>= prev_block_id) ≡ ok 0
unfolding prev_block_id
soft_remove_first {b} v listed =
    rw
      (
        soft_remove-ok v 0 listed,
        read_uint16-ok (soft_removed v 0 listed) 4088 (omega (arith, v.whole)),
      )
      (ap ok (
        two_zeros _ 4088 (spilled v 0 listed 4088 (omega arith) (omega arith))
          (spilled v 0 listed 4089 (omega arith) (omega arith))))
