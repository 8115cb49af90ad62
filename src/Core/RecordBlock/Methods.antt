-- ===== src/Core/RecordBlock/Methods.antt =====
-- The other methods of record_block.go.
use pucrs_metadata_db.Base.{
  ℕ, zero, suc, ◌+◌, ◌-◌, ◌*◌, ltb, leb, ◌==◌, if◌then◌else◌, Option, none, some, List, [], ◌∷◌,
  Result, ok, ◌>>=◌, ◌>>◌, assert,
}
use pucrs_metadata_db.Dbio.Bytes.{slice}
use pucrs_metadata_db.Dbio.DataFile.{datablock_size}
use pucrs_metadata_db.Dbio.DataBlock.{
  DataBlock, mem, size, read_uint16, read_uint32, write, uint16, uint32,
}
use pucrs_metadata_db.Core.RecordBlock.{
  header_offset_record_id, header_offset_record_start, header_offset_record_size,
  header_offset_chained_row_block_id, header_offset_chained_row_local_id, record_header_size,
  pos_utilization, pos_total_headers, pos_next_block, pos_prev_block, wrap16, sub16, header_ptr,
  RowId, Header, utilization, parse_headers, find_header, total_headers_check, live_header_ptr,
}

-- `localID*RECORD_HEADER_SIZE` is a `uint16` here.
unfoldable pub remove : DataBlock → ℕ → Result DataBlock
remove b local_id = do
  total_headers_check b local_id >>= λ _. ok tt
  p ← header_ptr (wrap16 (local_id * record_header_size))
  read_uint32 b (p + header_offset_record_id) >>= λ _. ok tt
  read_uint16 b (p + header_offset_record_start) >>= λ _. ok tt
  b ← write b (p + header_offset_record_id) (uint32 0)
  u ← utilization b
  record_size ← read_uint16 b (p + header_offset_record_size)
  write b pos_utilization (uint16 (sub16 u record_size))

-- The three fields of two bytes are each cleared by a write of four.
unfoldable pub soft_remove : DataBlock → ℕ → Result DataBlock
soft_remove b local_id = do
  total_headers_check b local_id >>= λ _. ok tt
  p ← header_ptr (local_id * record_header_size)
  read_uint32 b (p + header_offset_record_id) >>= λ _. ok tt
  read_uint16 b (p + header_offset_record_start) >>= λ _. ok tt
  current_record_size ← read_uint16 b (p + header_offset_record_size)
  b ← write b (p + header_offset_record_size) (uint32 0)
  b ← write b (p + header_offset_chained_row_block_id) (uint32 0)
  b ← write b (p + header_offset_chained_row_local_id) (uint32 0)
  u ← utilization b
  write b pos_utilization (uint16 (sub16 u current_record_size))

unfoldable pub clear : DataBlock → Result DataBlock
clear b = do b ← write b pos_total_headers (uint16 0); write b pos_utilization (uint16 0)

unfoldable pub count_live : List Header → ℕ
count_live [] = 0
count_live (h ∷ hs) = (if h.record_id == 0 then 0 else 1) + count_live hs

unfoldable pub total_records : DataBlock → Result ℕ
total_records b = do headers ← parse_headers b; ok (count_live headers)

unfoldable pub next_block_id : DataBlock → Result ℕ
next_block_id b = read_uint16 b pos_next_block

unfoldable pub set_next_block_id : DataBlock → ℕ → Result DataBlock
set_next_block_id b block_id = write b pos_next_block (uint16 block_id)

unfoldable pub prev_block_id : DataBlock → Result ℕ
prev_block_id b = read_uint16 b pos_prev_block

unfoldable pub set_prev_block_id : DataBlock → ℕ → Result DataBlock
set_prev_block_id b block_id = write b pos_prev_block (uint16 block_id)

unfoldable pub chained_row_id : DataBlock → ℕ → Result RowId
chained_row_id b local_id = do
  p ← live_header_ptr b local_id
  block_id ← read_uint16 b (p + header_offset_chained_row_block_id)
  chained_local_id ← read_uint16 b (p + header_offset_chained_row_local_id)
  ok (record { data_block_id = block_id; local_id = chained_local_id })

unfoldable pub set_chained_row_id : DataBlock → ℕ → RowId → Result DataBlock
set_chained_row_id b local_id row_id = do
  p ← live_header_ptr b local_id
  b ← write b (p + header_offset_chained_row_block_id) (uint16 row_id.data_block_id)
  write b (p + header_offset_chained_row_local_id) (uint16 row_id.local_id)

-- `Data[start:end]` panics if `end`, which is a `uint16`, has wrapped below `start`, or is past the
-- block.
unfoldable pub read_record_data : DataBlock → ℕ → Result (List ℕ)
read_record_data b local_id = do
  p ← live_header_ptr b local_id
  start ← read_uint16 b (p + header_offset_record_start)
  record_size ← read_uint16 b (p + header_offset_record_size)
  let end = wrap16 (start + record_size)
  assert (leb start end)
  assert (leb end (size b))
  ok (slice (mem b) start (end - start))

-- A new header is paid for unless a removed one can be reused.
unfoldable pub without_header : ℕ → Option Header → ℕ
without_header free_space (some _) = free_space
without_header free_space none =
    if ltb record_header_size free_space then sub16 free_space record_header_size else 0

unfoldable pub free_space_for_insert : DataBlock → Result ℕ
free_space_for_insert b = do
  u ← utilization b
  headers ← parse_headers b
  ok (without_header (sub16 datablock_size u) (find_header (λ h. h.record_id == 0) headers))

unfoldable pub ids_loop : ℕ → ℕ → DataBlock → Result (List ℕ)
ids_loop zero i b = ok []
ids_loop (suc n) i b = do
  p ← header_ptr (i * record_header_size)
  id ← read_uint32 b (p + header_offset_record_id)
  rest ← ids_loop n (i + 1) b
  ok (id ∷ rest)

unfoldable pub ids : DataBlock → Result (List ℕ)
ids b = do total_headers ← read_uint16 b pos_total_headers; ids_loop total_headers 0 b
