-- ===== src/Core/RecordBlock/Add.antt =====
-- Adding a record to a block that has neither the record nor a removed one.
use pucrs_metadata_db.Base.{
  ℕ, ◌+◌, ◌*◌, ◌≤◌, ◌<◌, ◌≡◌, sym, ap, ap₂, ◌∙◌, ◌≢◌, arith, ◌==◌, ==_of_ne, List, length, ok,
}
use pucrs_metadata_db.Dbio.Bytes.{Mem, peek16, slice}
use pucrs_metadata_db.Dbio.Bytes.Laws.{slice-Same}
use pucrs_metadata_db.Dbio.DataBlock.{DataBlock, mem, with_mem}
use pucrs_metadata_db.Core.RecordBlock.{Header, wrap16, sub16, starts_at, add_at, add}
use pucrs_metadata_db.Core.RecordBlock.Headers.{
  at, id_of, start_of, size_of, total_of, used_of, headers_of, utilization-ok, parse_headers-ok,
  length-headers_of,
}
use pucrs_metadata_db.Core.RecordBlock.Methods.{read_record_data, chained_row_id}
use pucrs_metadata_db.Core.RecordBlock.Reads.{read_record_data-ok, chained_row_id-ok}
use pucrs_metadata_db.Core.RecordBlock.Sorter.{IsSorter, length-sort, reusable-none}
use pucrs_metadata_db.Core.RecordBlock.Packed.{data_end, Packed, count_none, total-le, no_gap}
use pucrs_metadata_db.Core.RecordBlock.Write.{
  record_mem, write_record-ok, record_mem_outside, record_mem-total, record_mem-used,
  record_mem-peek16, record_mem-peek32,
}

module _ {sort : List Header → List Header} (s : IsSorter sort) {b : DataBlock} (v : Packed b)
    (id : ℕ) (bytes : List ℕ) (room : used_of (mem b) + 12 + length bytes ≤ 4096) where
  abbrev pub total : ℕ
  total = total_of (mem b)

  abbrev pub added_mem : Mem
  added_mem =
      record_mem (mem b) (at total) id (data_end (mem b)) (used_of (mem b) + 12) (total + 1) bytes

  -- The block after `Add`.
  abbrev pub added : DataBlock
  added = with_mem b added_mem

  pub add-added :
      ((i : ℕ) → i < total → id_of (mem b) i ≢ id) → add sort b id bytes ≡ ok (added, total)
  unfolding add add_at starts_at
  add-added fresh =
      let hs = headers_of (mem b) total 0 in
      let n : length (sort hs) ≡ total = length-sort s hs ∙ length-headers_of (mem b) total 0 in
      let local : wrap16 total ≡ total = omega (arith, v.counted, v.fits) in
      let up : wrap16 (used_of (mem b) + 12) ≡ used_of (mem b) + 12 = omega (arith, v.fits) in
      let more : wrap16 (total + 1) ≡ total + 1 = omega (arith, v.counted, v.fits) in
      let start : sub16 (sub16 (used_of (mem b) + 12) 8) (wrap16 ((total + 1) * 12))
          ≡ data_end (mem b) =
        omega (arith, v.counted, v.fits) in
      rw (
        parse_headers-ok b v.whole (total-le v),
        utilization-ok b v.whole,
        reusable-none s id hs
            (count_none (λ h. h.record_id == id) (mem b) total 0
              (λ j x y. ==_of_ne _ id (fresh j (omega arith))))
            (no_gap v),
        n,
        local,
        up,
        more,
        start,
        write_record-ok b total id (data_end (mem b)) (used_of (mem b) + 12) (total + 1) bytes
            v.whole (omega (arith, v.counted, v.fits)) (omega (arith, v.counted, v.fits)),
      )

  pub clear_of_table : data_end (mem b) + length bytes ≤ at total
  clear_of_table = omega (arith, v.counted, v.fits)

  pub in_block : at total + 12 ≤ 4088
  in_block = omega (arith, v.counted, v.fits)

  pub total_added : total_of added_mem ≡ total + 1
  total_added =
      record_mem-total (mem b) (at total) id (data_end (mem b)) (used_of (mem b) + 12) (total + 1)
        bytes clear_of_table in_block (omega (arith, v.counted, v.fits))

  pub used_added : used_of added_mem ≡ used_of (mem b) + 12 + length bytes
  used_added =
      let raw : peek16 added_mem 4094 ≡ used_of (mem b) + 12 + length bytes =
        record_mem-used (mem b) (at total) id (data_end (mem b)) (used_of (mem b) + 12) (total + 1)
          bytes clear_of_table in_block
        ∙ omega arith in
      ground (arith, raw)

  -- The fields of an old header.
  module _ (i : ℕ) (old : i < total) where
    pub id_kept : id_of added_mem i ≡ id_of (mem b) i
    id_kept =
        record_mem-peek32 (mem b) (at total) id (data_end (mem b)) (used_of (mem b) + 12)
          (total + 1) bytes clear_of_table in_block (at i + 0) (omega (arith, v.counted, v.fits))
          (omega (arith, v.counted, v.fits)) (omega (arith, v.counted, v.fits))

    pub field_kept : (o : ℕ) → o + 2 ≤ 12 → peek16 added_mem (at i + o) ≡ peek16 (mem b) (at i + o)
    field_kept o h =
        record_mem-peek16 (mem b) (at total) id (data_end (mem b)) (used_of (mem b) + 12)
          (total + 1) bytes clear_of_table in_block (at i + o) (omega (arith, v.counted, v.fits))
          (omega (arith, v.counted, v.fits)) (omega (arith, v.counted, v.fits))

    data_kept :
        slice added_mem (start_of (mem b) i) (size_of (mem b) i)
        ≡ slice (mem b) (start_of (mem b) i) (size_of (mem b) i)
    data_kept = slice-Same added_mem (mem b) (start_of (mem b) i) (size_of (mem b) i) λ q x y.
        record_mem_outside (mem b) (at total) id (data_end (mem b)) (used_of (mem b) + 12)
          (total + 1) bytes clear_of_table in_block q
          (omega (arith, v.counted, v.fits, v.below i old))
          (omega (arith, v.counted, v.fits, v.below i old))
          (omega (arith, v.counted, v.fits, v.below i old))

    pub kept_listed : i < total_of added_mem
    kept_listed = omega (arith, total_added)

    pub kept_small : i < 340
    kept_small = omega (arith, total-le v)

    pub read_kept : read_record_data added i ≡ read_record_data b i
    read_kept =
        read_record_data-ok added v.whole i kept_listed kept_small
          (λ e. v.live i old (sym id_kept ∙ e))
          (omega (arith, field_kept 4, field_kept 6, v.below i old, v.fits))
        ∙ ap ok (
            ap₂ (slice added_mem) (field_kept 4 (omega arith)) (field_kept 6 (omega arith))
            ∙ data_kept)
        ∙ sym (
            read_record_data-ok b v.whole i old kept_small (v.live i old)
              (omega (arith, v.below i old, v.fits)))

    pub chain_kept : chained_row_id added i ≡ chained_row_id b i
    chain_kept =
        chained_row_id-ok added v.whole i kept_listed kept_small
          (λ e. v.live i old (sym id_kept ∙ e))
        ∙ ap ok (
            ap₂ (λ x y. record { data_block_id = x; local_id = y }) (field_kept 8 (omega arith))
              (field_kept 10 (omega arith)))
        ∙ sym (chained_row_id-ok b v.whole i old kept_small (v.live i old))
