-- ===== src/Core/RecordBlock/Remove.antt =====
-- `Remove` takes one record away and leaves the others.
use native.Mathlib.Decide.{dec_lt, ℕ_discrete}
use pucrs_metadata_db.Base.{
  ℕ, ◌+◌, ◌-◌, ◌*◌, ◌≤◌, ◌<◌, ◌≡◌, sym, ap, ap₂, ◌∙◌, ◌≢◌, arith, ◌==◌, ==_of_ne, ==_iff,
  if◌then◌else◌, ok, err, ◌>>=◌, invalid_local_id,
}
use pucrs_metadata_db.Dbio.Bytes.{Mem, peek16, poke16, poke32, slice}
use pucrs_metadata_db.Dbio.Bytes.Laws.{
  Apart, slice-Same, peek16-Same, peek32-Same, poke16_outside, poke32_outside, peek32-poke32_self,
  peek16-poke16_self,
}
use pucrs_metadata_db.Dbio.DataBlock.{DataBlock, mem, size, with_mem}
use pucrs_metadata_db.Dbio.DataBlock.Laws.{read_uint16-ok, read_uint32-ok, write16-ok, write32-ok}
use pucrs_metadata_db.Core.RecordBlock.{wrap16, sub16, live_header_ptr, utilization}
use pucrs_metadata_db.Core.RecordBlock.Headers.{
  at, id_of, start_of, size_of, total_of, used_of, header_ptr-ok, utilization-ok,
  total_headers_check-ok, total_headers_check-err,
}
use pucrs_metadata_db.Core.RecordBlock.Methods.{remove, read_record_data}
use pucrs_metadata_db.Core.RecordBlock.Reads.{read_record_data-ok, read_record_data_removed}
use pucrs_metadata_db.Core.RecordBlock.Packed.{Packed}

-- The header table and the data of a block do not meet, whatever was removed.
pub record IsBlock (b : DataBlock) : Type 0 where
  pub whole : size b ≡ 4096
  pub table : 8 + total_of (mem b) * 12 ≤ 4096
  pub below :
      (i : ℕ)
      → i < total_of (mem b)
      → start_of (mem b) i + size_of (mem b) i ≤ 4088 - total_of (mem b) * 12

-- A block without gaps is such a block.
pub Packed-IsBlock : {b : DataBlock} → Packed b → IsBlock b
Packed-IsBlock v = record {
  whole = v.whole;
  table = omega (arith, v.counted, v.fits);
  below = λ i h. omega (arith, v.counted, v.fits, v.below i h);
}

read_past_end :
    (b : DataBlock) (i : ℕ)
    → size b ≡ 4096
    → total_of (mem b) ≤ i
    → read_record_data b i ≡ err invalid_local_id
unfolding read_record_data live_header_ptr
read_past_end b i whole h = rw (total_headers_check-err b whole i h)

module _ {b : DataBlock} (v : IsBlock b) (i : ℕ) (listed : i < total_of (mem b)) where
  abbrev pub used_after : ℕ
  used_after = sub16 (used_of (mem b)) (size_of (mem b) i)

  abbrev id_cleared : Mem
  id_cleared = poke32 (mem b) (at i + 0) 0

  abbrev removed_mem : Mem
  removed_mem = poke16 id_cleared 4094 used_after

  abbrev removed : DataBlock
  removed = with_mem b removed_mem

  small : i < 340
  small = omega (arith, v.table)

  id_cleared-peek16 : (q : ℕ) → Apart (at i + 0) 4 q 2 → peek16 id_cleared q ≡ peek16 (mem b) q
  id_cleared-peek16 q h =
      peek16-Same id_cleared (mem b) q
        (λ k x y. poke32_outside (mem b) (at i + 0) 0 k (omega arith))

  remove-removed : remove b i ≡ ok removed
  unfolding remove
  remove-removed =
      let place : wrap16 (i * 12) ≡ i * 12 = omega arith in
      let used_same : used_of id_cleared ≡ used_of (mem b) =
        ap (λ u. if u == 0 then 8 else u) (id_cleared-peek16 4094 (omega (arith, v.table))) in
      let size_same : size_of id_cleared i ≡ size_of (mem b) i =
        id_cleared-peek16 (at i + 6) (omega arith) in
      rw (
        total_headers_check-ok b v.whole i listed,
        place,
        header_ptr-ok b v.whole i small,
        read_uint32-ok b (at i + 0) (omega (arith, v.whole)),
        read_uint16-ok b (at i + 4) (omega (arith, v.whole)),
        write32-ok b (at i + 0) 0 (omega (arith, v.whole)),
        utilization-ok (with_mem b id_cleared) v.whole,
        read_uint16-ok (with_mem b id_cleared) (at i + 6) (omega (arith, v.whole)),
        used_same,
        size_same,
        write16-ok (with_mem b id_cleared) 4094 used_after (omega (arith, v.whole)),
      )

  -- A byte outside the record ID and the utilization is as before.
  outside : (q : ℕ) → Apart (at i + 0) 4 q 1 → Apart 4094 2 q 1 → removed_mem q ≡ mem b q
  outside q a c =
      poke16_outside id_cleared 4094 used_after q c ∙ poke32_outside (mem b) (at i + 0) 0 q a

  same16 :
      (q : ℕ) → Apart (at i + 0) 4 q 2 → Apart 4094 2 q 2 → peek16 removed_mem q ≡ peek16 (mem b) q
  same16 q a c = peek16-Same removed_mem (mem b) q (λ k x y. outside k (omega arith) (omega arith))

  total_same : total_of removed_mem ≡ total_of (mem b)
  total_same = same16 4092 (omega (arith, v.table)) (omega arith)

  gone : id_of removed_mem i ≡ 0
  gone =
      peek32-Same removed_mem id_cleared (at i + 0)
        (λ k x y. poke16_outside id_cleared 4094 used_after k (omega (arith, v.table)))
      ∙ peek32-poke32_self (mem b) (at i + 0) 0 (omega arith)

  module _ (j : ℕ) (other : j ≢ i) (there : j < total_of (mem b)) where
    field_same : (o : ℕ) → o + 2 ≤ 12 → peek16 removed_mem (at j + o) ≡ peek16 (mem b) (at j + o)
    field_same o h = same16 (at j + o) (omega (arith, v.table)) (omega (arith, v.table))

    id_same : id_of removed_mem j ≡ id_of (mem b) j
    id_same =
        peek32-Same removed_mem (mem b) (at j + 0)
          (λ k x y. outside k (omega (arith, v.table)) (omega (arith, v.table)))

    data_same :
        slice removed_mem (start_of (mem b) j) (size_of (mem b) j)
        ≡ slice (mem b) (start_of (mem b) j) (size_of (mem b) j)
    data_same = slice-Same removed_mem (mem b) (start_of (mem b) j) (size_of (mem b) j) (λ k x y.
        outside k (omega (arith, v.table, v.below j there))
          (omega (arith, v.table, v.below j there)))

    read_other : read_record_data removed j ≡ read_record_data b j
    read_other = elim (ℕ_discrete (id_of (mem b) j) 0) [
      | yes dead ↦
          read_record_data_removed removed v.whole j (omega (arith, total_same))
            (omega (arith, v.table)) (id_same ∙ dead)
          ∙ sym (read_record_data_removed b v.whole j there (omega (arith, v.table)) dead)
      | no live ↦
          read_record_data-ok removed v.whole j (omega (arith, total_same)) (omega (arith, v.table))
            (λ e. live (sym id_same ∙ e))
            (omega (arith, field_same 4, field_same 6, v.below j there))
          ∙ ap ok (
              ap₂ (slice removed_mem) (field_same 4 (omega arith)) (field_same 6 (omega arith))
              ∙ data_same)
          ∙ sym (
              read_record_data-ok b v.whole j there (omega (arith, v.table)) live
                (omega (arith, v.below j there)))
    ]

  -- After `Remove` of a record of a well-formed block the record is not found under its local ID; under every other local ID a read
  -- gives what it gave before, be it bytes or an error.
  pub read_record_data-remove :
      (j : ℕ)
      → (remove b i >>= λ b'. read_record_data b' j)
        ≡ (if j == i then err invalid_local_id else read_record_data b j)
  read_record_data-remove j = elim (ℕ_discrete j i) [
    | yes e ↦
        rw (remove-removed, (==_iff j i).1 e)
          (ap (read_record_data removed) e
            ∙ read_record_data_removed removed v.whole i (omega (arith, total_same)) small gone)
    | no ne ↦
        rw (remove-removed, ==_of_ne j i ne)
          (elim (dec_lt j (total_of (mem b))) [
            | yes there ↦ read_other j ne there
            | no past ↦
                read_past_end removed j v.whole (omega (arith, total_same))
                ∙ sym (read_past_end b j v.whole (omega arith))
          ])
  ]

  -- Every header keeps its start and its size, that of the removed record too.
  place_same :
      (j : ℕ)
      → j < total_of (mem b)
      → (start_of removed_mem j ≡ start_of (mem b) j) × (size_of removed_mem j ≡ size_of (mem b) j)
  place_same j there = elim (ℕ_discrete j i) [
    | yes e ↦ (
      same16 (at j + 4) (omega (arith, v.table)) (omega (arith, v.table)),
      same16 (at j + 6) (omega (arith, v.table)) (omega (arith, v.table)),
    )
    | no ne ↦ (field_same j ne there 4 (omega arith), field_same j ne there 6 (omega arith))
  ]

  removed-below :
      (j : ℕ)
      → j < total_of removed_mem
      → start_of removed_mem j + size_of removed_mem j ≤ 4088 - total_of removed_mem * 12
  removed-below j h =
      let there : j < total_of (mem b) = omega (arith, total_same) in
      omega (arith, (place_same j there).0, (place_same j there).1, v.below j there, total_same)

  -- `Remove` gives back the bytes of the record to the utilization, if it was counted in full there
  -- with the eight bytes of the block, and the block stays well formed.
  pub remove-utilization :
      8 + size_of (mem b) i ≤ used_of (mem b)
      → used_of (mem b) ≤ 4096
      → (b' : DataBlock) × (remove b i ≡ ok b')
        × IsBlock b'
        × (utilization b' ≡ ok (used_of (mem b) - size_of (mem b) i))
  remove-utilization counted fits =
      let kept : peek16 removed_mem 4094 ≡ used_of (mem b) - size_of (mem b) i =
        peek16-poke16_self id_cleared 4094 used_after (omega arith) ∙ omega arith in
      let used' : used_of removed_mem ≡ used_of (mem b) - size_of (mem b) i =
        ground (arith, kept) in
      (
        removed,
        remove-removed,
        record {
          whole = v.whole;
          table = omega (arith, total_same, v.table);
          below = removed-below;
        },
        utilization-ok removed v.whole ∙ ap ok used',
      )

-- `Remove` refuses a local ID past the header table of a whole block.
pub remove_invalid :
    (b : DataBlock) (i : ℕ)
    → size b ≡ 4096
    → total_of (mem b) ≤ i
    → remove b i ≡ err invalid_local_id
unfolding remove
remove_invalid b i whole h = rw (total_headers_check-err b whole i h)
