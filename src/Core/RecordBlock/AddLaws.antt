-- ===== src/Core/RecordBlock/AddLaws.antt =====
-- What a caller of `Add` may rely on.
use pucrs_metadata_db.Base.{
  ℕ, ◌+◌, ◌≤◌, ◌<◌, ◌≡◌, sym, ap, ap₂, ◌∙◌, ◌≢◌, arith, ◌⊎◌, inl, inr, List, length, Result, ok,
  ◌>>=◌,
}
use native.Mathlib.Decide.{dec_lt}
use pucrs_metadata_db.Dbio.Bytes.{Mem, peek16, slice}
use pucrs_metadata_db.Dbio.Bytes.Laws.{AllBytes}
use pucrs_metadata_db.Dbio.DataBlock.{DataBlock, mem}
use pucrs_metadata_db.Core.RecordBlock.{RowId, Header, add}
use pucrs_metadata_db.Core.RecordBlock.Headers.{at, id_of, start_of, size_of, total_of, used_of}
use pucrs_metadata_db.Core.RecordBlock.Methods.{
  free_space_for_insert, read_record_data, chained_row_id,
}
use pucrs_metadata_db.Core.RecordBlock.Reads.{read_record_data-ok, chained_row_id-ok}
use pucrs_metadata_db.Core.RecordBlock.Sorter.{IsSorter}
use pucrs_metadata_db.Core.RecordBlock.Packed.{data_end, Packed, free_space_for_insert_packed}
use pucrs_metadata_db.Core.RecordBlock.Write.{record_mem-slice, record_mem-fields}
use pucrs_metadata_db.Core.RecordBlock.Add.{
  added, add-added, clear_of_table, in_block, total_added, used_added, read_kept, chain_kept,
  id_kept, field_kept,
}

-- What a caller checks before it adds: the record is new to the block, and the bytes are no more
-- than `FreeSpaceForInsert` says, which is not 0.
pub record Fits (b : DataBlock) (id : ℕ) (bytes : List ℕ) : Type 0 where
  pub id_positive : id ≢ 0
  pub id_small : id < 4294967296
  pub fresh : (i : ℕ) → i < total_of (mem b) → id_of (mem b) i ≢ id
  pub all_bytes : AllBytes bytes
  pub free : ℕ
  pub free_said : free_space_for_insert b ≡ ok free
  pub free_positive : 0 < free
  pub enough : length bytes ≤ free

module _ {sort : List Header → List Header} (s : IsSorter sort) {b : DataBlock} (v : Packed b)
    (id : ℕ) (bytes : List ℕ) (f : Fits b id bytes) where
  abbrev total : ℕ
  total = total_of (mem b)

  pub room : used_of (mem b) + 12 + length bytes ≤ 4096
  room = ground (arith, f.free_said, free_space_for_insert_packed v, f.free_positive, f.enough)

  abbrev pub result : DataBlock
  result = added s v id bytes room

  abbrev m' : Mem
  m' = mem result

  new_fields :
      (id_of m' total ≡ id)
      × (start_of m' total ≡ data_end (mem b))
      × (size_of m' total ≡ length bytes)
      × (peek16 m' (at total + 8) ≡ 0)
      × (peek16 m' (at total + 10) ≡ 0)
  new_fields =
      record_mem-fields (mem b) (at total) id (data_end (mem b)) (used_of (mem b) + 12) (total + 1)
        bytes (clear_of_table s v id bytes room) (in_block s v id bytes room) f.id_small
        (omega (arith, v.fits)) (omega (arith, room))

  pub add_ok : add sort b id bytes ≡ ok (result, total)
  add_ok = add-added s v id bytes room f.fresh

  more : total_of m' ≡ total + 1
  more = total_added s v id bytes room

  used : used_of m' ≡ used_of (mem b) + 12 + length bytes
  used = used_added s v id bytes room

  -- A header of the new block is the new one or an old one.
  last_or_old : (i : ℕ) → i < total_of m' → (i < total) ⊎ (i ≡ total)
  last_or_old i h = elim (dec_lt i total) [ yes p ↦ inl p | no p ↦ inr (omega (arith, more)) ]

  result-live : (i : ℕ) → i < total_of m' → id_of m' i ≢ 0
  result-live i h e = elim (last_or_old i h) [
    | inl old ↦ v.live i old (sym (id_kept s v id bytes room i old) ∙ e)
    | inr new ↦ f.id_positive (sym new_fields.0 ∙ ap (id_of m') (sym new) ∙ e)
  ]

  result-below : (i : ℕ) → i < total_of m' → start_of m' i + size_of m' i ≤ data_end m'
  result-below i h = elim (last_or_old i h) [
    | inl old ↦ omega (
      arith,
      field_kept s v id bytes room i old 4,
      field_kept s v id bytes room i old 6,
      v.below i old,
      v.counted,
      more,
      used,
    )
    | inr new ↦ omega (
      arith,
      ap (start_of m') new,
      ap (size_of m') new,
      new_fields.1,
      new_fields.2,
      v.counted,
      more,
      used,
    )
  ]

  pub result-Packed : Packed result
  result-Packed = record {
    whole = v.whole;
    counted = omega (arith, v.counted, more, used);
    fits = omega (arith, used, room);
    live = result-live;
    below = result-below;
  }

  pub add-Packed :
      (b' : DataBlock) × (add sort b id bytes ≡ ok (b', total_of (mem b)))
      × Packed b'
      × (total_of (mem b') ≡ total_of (mem b) + 1)
  add-Packed = (result, add_ok, result-Packed, more)

  pub read_record_data-add : (add sort b id bytes >>= λ r. read_record_data r.0 r.1) ≡ ok bytes
  read_record_data-add = rw add_ok (
      read_record_data-ok result v.whole total (omega (arith, more))
        (omega (arith, v.counted, room)) (λ e. f.id_positive (sym new_fields.0 ∙ e))
        (omega (arith, new_fields.1, new_fields.2, room, v.counted))
      ∙ ap ok (
          ap₂ (slice m') new_fields.1 new_fields.2
          ∙ record_mem-slice (mem b) (at total) id (data_end (mem b)) (used_of (mem b) + 12)
              (total + 1) bytes (clear_of_table s v id bytes room) (in_block s v id bytes room)
              f.all_bytes))

  -- A record that fits and was just added to a block without gaps has no chained row.
  pub chained_row_id-add :
      (add sort b id bytes >>= λ r. chained_row_id r.0 r.1)
      ≡ ok (record { data_block_id = 0; local_id = 0 })
  chained_row_id-add = rw add_ok (
      chained_row_id-ok result v.whole total (omega (arith, more)) (omega (arith, v.counted, room))
        (λ e. f.id_positive (sym new_fields.0 ∙ e))
      ∙ ap ok (ap₂ (λ x y. record { data_block_id = x; local_id = y }) new_fields.3 new_fields.4))

  -- After a record that fits is added to a block without gaps, every record that the block had
  -- before reads as before, its bytes and its chained row.
  pub add_keeps :
      (i : ℕ)
      → i < total_of (mem b)
      → ((add sort b id bytes >>= λ r. read_record_data r.0 i) ≡ read_record_data b i)
        × ((add sort b id bytes >>= λ r. chained_row_id r.0 i) ≡ chained_row_id b i)
  add_keeps i old =
      rw add_ok (read_kept s v id bytes room i old, chain_kept s v id bytes room i old)

  -- The same, on the block that `Add` leaves.
  abbrev read_at : ℕ → Result (DataBlock × ℕ) → Result (List ℕ)
  read_at i r = r >>= λ x. read_record_data x.0 i

  abbrev chain_at : ℕ → Result (DataBlock × ℕ) → Result RowId
  chain_at i r = r >>= λ x. chained_row_id x.0 i

  pub result-reads : read_record_data result total ≡ ok bytes
  result-reads =
      ap (λ (r : Result (DataBlock × ℕ)). r >>= λ x. read_record_data x.0 x.1) (sym add_ok)
      ∙ read_record_data-add

  pub result-points : chained_row_id result total ≡ ok (record { data_block_id = 0; local_id = 0 })
  result-points =
      ap (λ (r : Result (DataBlock × ℕ)). r >>= λ x. chained_row_id x.0 x.1) (sym add_ok)
      ∙ chained_row_id-add

  pub result-keeps :
      (i : ℕ)
      → i < total_of (mem b)
      → (read_record_data result i ≡ read_record_data b i)
        × (chained_row_id result i ≡ chained_row_id b i)
  result-keeps i old = (
    ap (read_at i) (sym add_ok) ∙ (add_keeps i old).0,
    ap (chain_at i) (sym add_ok) ∙ (add_keeps i old).1,
  )
