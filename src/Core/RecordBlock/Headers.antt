-- ===== src/Core/RecordBlock/Headers.antt =====
-- The header table of a block, read without the checks that its bounds make superfluous.
use pucrs_metadata_db.Base.{
  ℕ, zero, suc, ◌+◌, ◌-◌, ◌*◌, ◌≤◌, ◌<◌, ◌≡◌, refl, ap, arith, le→leb, lt→ltb, ltb_of_le, ◌==◌,
  if◌then◌else◌, List, [], ◌∷◌, length, ok, err, invalid_local_id,
}
use pucrs_metadata_db.Dbio.Bytes.{Mem, peek16, peek32}
use pucrs_metadata_db.Dbio.DataBlock.{DataBlock, mem, size}
use pucrs_metadata_db.Dbio.DataBlock.Laws.{read_uint16-ok, read_uint32-ok}
use pucrs_metadata_db.Core.RecordBlock.{
  wrap16, sub16, header_ptr, Header, utilization, parse_header, parse_loop, parse_headers,
  total_headers_check, live_header_ptr,
}

-- Where header `i` starts.
abbrev pub at : ℕ → ℕ
at i = 4076 - i * 12

abbrev pub id_of : Mem → ℕ → ℕ
id_of m i = peek32 m (at i + 0)

abbrev pub start_of : Mem → ℕ → ℕ
start_of m i = peek16 m (at i + 4)

abbrev pub size_of : Mem → ℕ → ℕ
size_of m i = peek16 m (at i + 6)

abbrev pub total_of : Mem → ℕ
total_of m = peek16 m 4092

abbrev pub used_of : Mem → ℕ
used_of m = let u = peek16 m 4094 in if u == 0 then 8 else u

abbrev pub header_of : Mem → ℕ → Header
header_of m i = record {
  local_id = i;
  record_id = id_of m i;
  starts_at = start_of m i;
  size = size_of m i;
  chained_block_id = peek16 m (at i + 8);
  chained_local_id = peek16 m (at i + 10);
}

unfoldable pub headers_of : Mem → ℕ → ℕ → List Header
headers_of m zero i = []
headers_of m (suc n) i = header_of m i ∷ headers_of m n (i + 1)

-- A whole block has room for 340 headers.
module _ (b : DataBlock) (whole : size b ≡ 4096) where
  pub header_ptr-ok : (i : ℕ) → i < 340 → header_ptr (i * 12) ≡ ok (at i)
  unfolding header_ptr
  header_ptr-ok i h = rw (le→leb (i * 12) 4076 (omega arith))

  pub utilization-ok : utilization b ≡ ok (used_of (mem b))
  unfolding utilization
  utilization-ok = rw (read_uint16-ok b 4094 (omega arith))

  pub parse_header-ok : (i : ℕ) → i < 340 → parse_header b i ≡ ok (header_of (mem b) i)
  unfolding parse_header
  parse_header-ok i h =
      let place : sub16 4076 (wrap16 (i * 12)) ≡ at i = omega arith in
      rw (
        place,
        read_uint32-ok b (at i + 0) (omega arith),
        read_uint16-ok b (at i + 4) (omega arith),
        read_uint16-ok b (at i + 6) (omega arith),
        read_uint16-ok b (at i + 8) (omega arith),
        read_uint16-ok b (at i + 10) (omega arith),
      )

  parse_loop-ok : (n i : ℕ) → n + i ≤ 340 → parse_loop n i b ≡ ok (headers_of (mem b) n i)
  unfolding parse_loop headers_of
  parse_loop-ok zero i h = refl
  parse_loop-ok (suc n) i h =
      rw (parse_header-ok i (omega arith), parse_loop-ok n (i + 1) (omega arith))

  pub parse_headers-ok :
      total_of (mem b) ≤ 340 → parse_headers b ≡ ok (headers_of (mem b) (total_of (mem b)) 0)
  unfolding parse_headers
  parse_headers-ok h =
      rw (read_uint16-ok b 4092 (omega arith), parse_loop-ok (total_of (mem b)) 0 (omega arith))

  pub total_headers_check-ok :
      (i : ℕ) → i < total_of (mem b) → total_headers_check b i ≡ ok (total_of (mem b))
  unfolding total_headers_check
  total_headers_check-ok i h = rw (read_uint16-ok b 4092 (omega arith), lt→ltb _ _ h)

  -- a local ID past the table is refused
  pub total_headers_check-err :
      (i : ℕ) → total_of (mem b) ≤ i → total_headers_check b i ≡ err invalid_local_id
  unfolding total_headers_check
  total_headers_check-err i h = rw (read_uint16-ok b 4092 (omega arith), ltb_of_le _ _ h)

  pub live_header_ptr-ok :
      (i : ℕ)
      → i < total_of (mem b)
      → i < 340
      → live_header_ptr b i ≡ (if id_of (mem b) i == 0 then err invalid_local_id else ok (at i))
  unfolding live_header_ptr
  live_header_ptr-ok i h k =
      rw (total_headers_check-ok i h, header_ptr-ok i k, read_uint32-ok b (at i + 0) (omega arith))
        (ground arith)

pub length-headers_of : (m : Mem) (n i : ℕ) → length (headers_of m n i) ≡ n
unfolding headers_of
length-headers_of m zero i = refl
length-headers_of m (suc n) i = ap suc (length-headers_of m n (i + 1))
