-- ===== src/Core/RecordBlock.antt =====
-- src/simplejsondb/core/record_block.go: a block of records, with their data at the front of the block
-- and a list of headers that grows down from its end.
pub mod Methods
pub mod Headers
pub mod Reads
pub mod Write
pub mod Sorter
pub mod Packed
pub mod Add
pub mod AddLaws
pub mod Remove
pub mod SoftRemove
pub mod Tests
use pucrs_metadata_db.Base.{
  ℕ, zero, suc, ◌+◌, ◌-◌, ◌*◌, ◌%◌, Bool, true, false, ◌&&◌, ◌||◌, ltb, leb, ◌==◌, if◌then◌else◌,
  Option, none, some, List, [], ◌∷◌, ◌++◌, length, map, not, Result, ok, err, panic, out_of_fuel,
  invalid_local_id, ◌>>=◌, ◌>>◌, guard, assert,
}
use pucrs_metadata_db.Dbio.Bytes.{slice}
use pucrs_metadata_db.Dbio.DataBlock.{
  DataBlock, mem, in_bounds, read_uint8, read_uint16, read_uint32, write, uint8, uint16, uint32,
  byte_slice, read_string,
}

abbrev pub header_offset_record_id : ℕ
header_offset_record_id = 0

abbrev pub header_offset_record_start : ℕ
header_offset_record_start = 4

abbrev pub header_offset_record_size : ℕ
header_offset_record_size = header_offset_record_start + 2

abbrev pub header_offset_chained_row_block_id : ℕ
header_offset_chained_row_block_id = header_offset_record_size + 2

abbrev pub header_offset_chained_row_local_id : ℕ
header_offset_chained_row_local_id = header_offset_chained_row_block_id + 2

abbrev pub record_header_size : ℕ
record_header_size = 12

abbrev pub min_utilization : ℕ
min_utilization = 8

abbrev pub pos_utilization : ℕ
pos_utilization = 4096 - 2

abbrev pub pos_total_headers : ℕ
pos_total_headers = pos_utilization - 2

abbrev pub pos_next_block : ℕ
pos_next_block = pos_total_headers - 2

abbrev pub pos_prev_block : ℕ
pos_prev_block = pos_next_block - 2

abbrev pub pos_first_header : ℕ
pos_first_header = pos_prev_block - record_header_size

-- `uint16` arithmetic.
abbrev pub wrap16 : ℕ → ℕ
wrap16 x = x % 65536

abbrev pub sub16 : ℕ → ℕ → ℕ
sub16 a b = (a + 65536 - b) % 65536

-- `int(POS_FIRST_HEADER) - int(offset)`. A negative position panics: its callers use it first with
-- the offset 0 of the record ID.
unfoldable pub header_ptr : ℕ → Result ℕ
header_ptr offset = do assert (leb offset pos_first_header); ok (pos_first_header - offset)

pub record RowId : Type 0 where
  pub data_block_id : ℕ
  pub local_id : ℕ

pub record Header : Type 0 where
  pub local_id : ℕ
  pub record_id : ℕ
  pub starts_at : ℕ
  pub size : ℕ
  pub chained_block_id : ℕ
  pub chained_local_id : ℕ

unfoldable pub utilization : DataBlock → Result ℕ
utilization b = do u ← read_uint16 b pos_utilization; ok (if u == 0 then min_utilization else u)

-- `int(POS_FIRST_HEADER - localID*RECORD_HEADER_SIZE)`, all in `uint16`.
unfoldable pub parse_header : DataBlock → ℕ → Result Header
parse_header b local_id = do
  let p = sub16 pos_first_header (wrap16 (local_id * record_header_size))
  record_id ← read_uint32 b (p + header_offset_record_id)
  starts_at ← read_uint16 b (p + header_offset_record_start)
  size ← read_uint16 b (p + header_offset_record_size)
  chained_block_id ← read_uint16 b (p + header_offset_chained_row_block_id)
  chained_local_id ← read_uint16 b (p + header_offset_chained_row_local_id)
  ok (record {
    local_id = local_id;
    record_id = record_id;
    starts_at = starts_at;
    size = size;
    chained_block_id = chained_block_id;
    chained_local_id = chained_local_id;
  })

-- The headers from `localID` on, `n` of them.
unfoldable pub parse_loop : ℕ → ℕ → DataBlock → Result (List Header)
parse_loop zero local_id b = ok []
parse_loop (suc n) local_id b = do
  h ← parse_header b local_id
  hs ← parse_loop n (local_id + 1) b
  ok (h ∷ hs)

unfoldable pub parse_headers : DataBlock → Result (List Header)
parse_headers b = do total_headers ← read_uint16 b pos_total_headers; parse_loop total_headers 0 b

unfoldable pub find_header : (Header → Bool) → List Header → Option Header
find_header p [] = none
find_header p (h ∷ hs) = if p h then some h else find_header p hs

-- The bytes `Data[from+p]` to `Data[to+p]`, with `n` rounds left.
unfoldable pub copy_loop : ℕ → ℕ → ℕ → ℕ → DataBlock → Result DataBlock
copy_loop zero p from to b = ok b
copy_loop (suc n) p from to b = do
  x ← read_uint8 b (wrap16 (from + p))
  b ← write b (wrap16 (to + p)) (uint8 x)
  copy_loop n (p + 1) from to b

unfoldable pub write_header_field : DataBlock → ℕ → ℕ → ℕ → Result DataBlock
write_header_field b local_id offset v = do
  assert (leb (local_id * record_header_size) (pos_first_header + offset))
  write b (pos_first_header + offset - local_id * record_header_size) (uint16 v)

-- The loop over `headers[i+1:]`: each record moves down to `dataPtr`. The headers are returned as
-- the loop leaves them, with the place behind the last.
unfoldable pub shift_loop : List Header → ℕ → DataBlock → Result (DataBlock × List Header × ℕ)
shift_loop [] data_ptr b = ok (b, [], data_ptr)
shift_loop (n ∷ ns) data_ptr b = do
  b ← copy_loop n.size 0 n.starts_at data_ptr b
  b ← write_header_field b n.local_id header_offset_record_start data_ptr
  (b, ns', end) ← shift_loop ns (wrap16 (data_ptr + n.size)) b
  ok (b, record n { starts_at = data_ptr } ∷ ns', end)

-- The outer loop, with fuel for one round per header.
unfoldable pub defragment_loop : ℕ → List Header → DataBlock → Result DataBlock
defragment_loop fuel [] b = ok b
defragment_loop zero (h ∷ hs) b = out_of_fuel
defragment_loop (suc fuel) (h ∷ hs) b =
    elim ((not (h.record_id == 0) && not (h.size == 0)) || (h.record_id == 0 && h.size == 0)) [
      | true ↦ defragment_loop fuel hs b
      | false ↦ do
        (b, hs', end) ← shift_loop hs h.starts_at b
        b ← write_header_field b h.local_id header_offset_record_size 0
        b ← write_header_field b h.local_id header_offset_record_start end
        defragment_loop fuel hs' b
    ]

-- The seven writes of `Add`, once the header and its place are known.
unfoldable pub write_record :
    DataBlock → (local_id record_id starts_at utilization total : ℕ) → List ℕ → Result DataBlock
write_record b local_id record_id starts_at utilization total bytes = do
  p ← header_ptr (wrap16 (local_id * record_header_size))
  b ← write b (p + header_offset_record_id) (uint32 record_id)
  b ← write b (p + header_offset_record_start) (uint16 starts_at)
  b ← write b (p + header_offset_record_size) (uint16 (wrap16 (length bytes)))
  b ← write b (p + header_offset_chained_row_block_id) (uint16 0)
  b ← write b (p + header_offset_chained_row_local_id) (uint16 0)
  b ← write b starts_at (byte_slice bytes)
  b ← write b pos_utilization (uint16 (wrap16 (utilization + wrap16 (length bytes))))
  write b pos_total_headers (uint16 total)

-- The header that `Add` reuses: that of the record, or one of a removed record.
unfoldable pub reusable : ℕ → List Header → Option Header
reusable record_id headers = elim (find_header (λ h. h.record_id == record_id) headers) [
  | some h ↦ some h
  | none ↦ find_header (λ h. h.record_id == 0) headers
]

unfoldable pub starts_at : ℕ → ℕ → ℕ
starts_at utilization total =
    sub16 (sub16 utilization min_utilization) (wrap16 (total * record_header_size))

-- `sort.Sort` by `startsAt` is of the standard library: it is not stable, so which of two headers
-- with one start comes first is not known.
module _ (sort : List Header → List Header) where
  unfoldable pub defragment : List Header → DataBlock → Result DataBlock
  defragment headers b = let headers = sort headers in defragment_loop (length headers) headers b

  -- The second half of `Add`, with the header to reuse. It returns the block and the local ID of
  -- the record.
  unfoldable pub add_at :
      DataBlock → ℕ → List ℕ → List Header → ℕ → Option Header → Result (DataBlock × ℕ)
  add_at b record_id bytes headers utilization none = do
    let local_id = wrap16 (length headers)
    let utilization = wrap16 (utilization + record_header_size)
    let total = wrap16 (length headers + 1)
    b ← write_record b local_id record_id (starts_at utilization total) utilization total bytes
    ok (b, local_id)
  add_at b record_id bytes headers utilization (some h) = do
    b ← defragment headers b
    let total = wrap16 (length headers)
    b ← write_record b h.local_id record_id (starts_at utilization total) utilization total bytes
    ok (b, h.local_id)

  unfoldable pub add : DataBlock → ℕ → List ℕ → Result (DataBlock × ℕ)
  add b record_id bytes = do
    headers ← parse_headers b
    utilization ← utilization b
    let headers = sort headers
    add_at b record_id bytes headers utilization (reusable record_id headers)

unfoldable pub total_headers_check : DataBlock → ℕ → Result ℕ
total_headers_check b local_id = do
  total_headers ← read_uint16 b pos_total_headers
  guard (ltb local_id total_headers) invalid_local_id
  ok total_headers

-- The header of `localID`, after the checks that reads and chains make: in the table, and live.
unfoldable pub live_header_ptr : DataBlock → ℕ → Result ℕ
live_header_ptr b local_id = do
  total_headers_check b local_id >>= λ _. ok tt
  p ← header_ptr (local_id * record_header_size)
  id ← read_uint32 b (p + header_offset_record_id)
  guard (not (id == 0)) invalid_local_id
  ok p
