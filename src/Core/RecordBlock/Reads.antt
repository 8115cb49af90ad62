-- ===== src/Core/RecordBlock/Reads.antt =====
-- What the reads of a record return, on every branch.
use pucrs_metadata_db.Base.{
  ℕ, ◌+◌, ◌-◌, ◌≤◌, ◌<◌, ◌≡◌, ◌≢◌, arith, le→leb, ==_of_ne, ltb_of_le, List, ok, err,
  invalid_local_id,
}
use native.Mathlib.Decide.{dec_lt}
use pucrs_metadata_db.Dbio.Bytes.{Mem, peek16, slice}
use pucrs_metadata_db.Dbio.DataBlock.{DataBlock, mem, size}
use pucrs_metadata_db.Dbio.DataBlock.Laws.{read_uint16-ok}
use pucrs_metadata_db.Core.RecordBlock.{wrap16, RowId, live_header_ptr, total_headers_check}
use pucrs_metadata_db.Core.RecordBlock.Headers.{
  at, id_of, start_of, size_of, total_of, live_header_ptr-ok,
}
use pucrs_metadata_db.Core.RecordBlock.Methods.{read_record_data, chained_row_id}

module _ (b : DataBlock) (whole : size b ≡ 4096) (i : ℕ) where
  abbrev pub chain_of : Mem → RowId
  chain_of m = record { data_block_id = peek16 m (at i + 8); local_id = peek16 m (at i + 10) }

  module _ (listed : i < total_of (mem b)) (small : i < 340) (live : id_of (mem b) i ≢ 0) where
    live_header : live_header_ptr b i ≡ ok (at i)
    live_header = rw (live_header_ptr-ok b whole i listed small, ==_of_ne _ 0 live)

    pub read_record_data-ok :
        start_of (mem b) i + size_of (mem b) i ≤ 4096
        → read_record_data b i ≡ ok (slice (mem b) (start_of (mem b) i) (size_of (mem b) i))
    unfolding read_record_data
    read_record_data-ok fits =
        let start = start_of (mem b) i in
        let n = size_of (mem b) i in
        let unwrapped : wrap16 (start + n) ≡ start + n = omega arith in
        let back : start + n - start ≡ n = omega arith in
        rw (
          live_header,
          read_uint16-ok b (at i + 4) (omega arith),
          read_uint16-ok b (at i + 6) (omega arith),
          unwrapped,
          le→leb start (start + n) (omega arith),
          le→leb (start + n) (size b) (omega arith),
          back,
        )

    pub chained_row_id-ok : chained_row_id b i ≡ ok (chain_of (mem b))
    unfolding chained_row_id
    chained_row_id-ok = rw (
      live_header,
      read_uint16-ok b (at i + 8) (omega arith),
      read_uint16-ok b (at i + 10) (omega arith),
    )

  -- A record that was removed is not found.
  pub read_record_data_removed :
      i < total_of (mem b)
      → i < 340
      → id_of (mem b) i ≡ 0
      → read_record_data b i ≡ err invalid_local_id
  unfolding read_record_data
  read_record_data_removed listed small gone = rw (live_header_ptr-ok b whole i listed small, gone)

  -- A record that can be read is in the table.
  pub read_record_data-listed :
      (bytes : List ℕ) → read_record_data b i ≡ ok bytes → i < total_of (mem b)
  unfolding read_record_data live_header_ptr total_headers_check
  read_record_data-listed bytes h = elim (dec_lt i (total_of (mem b))) [
    | yes listed ↦ listed
    | no past ↦
        let refused : read_record_data b i ≡ err invalid_local_id =
          rw (read_uint16-ok b 4092 (omega arith), ltb_of_le i (total_of (mem b)) (omega arith)) in
        cc
  ]
