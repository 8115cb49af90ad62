-- ===== src/Core/RecordBlock/Packed.antt =====
-- Blocks whose records were added and none removed: the data lies without gaps below a mark that
-- the utilization gives.
use pucrs_metadata_db.Base.{
  ℕ, zero, suc, ◌+◌, ◌-◌, ◌*◌, ◌≤◌, ◌<◌, ◌≡◌, refl, ◌≢◌, Bool, false, arith, ◌==◌, ==_of_ne, ok,
}
use pucrs_metadata_db.Dbio.Bytes.{Mem}
use pucrs_metadata_db.Dbio.DataBlock.{DataBlock, mem, size}
use pucrs_metadata_db.Core.RecordBlock.{Header}
use pucrs_metadata_db.Core.RecordBlock.Headers.{
  id_of, start_of, size_of, total_of, used_of, header_of, headers_of, utilization-ok,
  parse_headers-ok,
}
use pucrs_metadata_db.Core.RecordBlock.Methods.{without_header, free_space_for_insert}
use pucrs_metadata_db.Core.RecordBlock.Sorter.{count, find_header-none}

-- Where the data ends.
abbrev pub data_end : Mem → ℕ
data_end m = used_of m - 8 - total_of m * 12

pub record Packed (b : DataBlock) : Type 0 where
  pub whole : size b ≡ 4096
  pub counted : 8 + total_of (mem b) * 12 ≤ used_of (mem b)
  pub fits : used_of (mem b) ≤ 4096
  pub live : (i : ℕ) → i < total_of (mem b) → id_of (mem b) i ≢ 0
  pub below :
      (i : ℕ) → i < total_of (mem b) → start_of (mem b) i + size_of (mem b) i ≤ data_end (mem b)

-- No header of the table passes the test.
pub count_none :
    (p : Header → Bool) (m : Mem) (n i : ℕ)
    → ((j : ℕ) → i ≤ j → j < i + n → p (header_of m j) ≡ false)
    → count p (headers_of m n i) ≡ 0
unfolding headers_of
count_none p m zero i h = refl
count_none p m (suc n) i h =
    ground (arith, h i, count_none p m n (i + 1) (λ j a b. h j (omega arith) (omega arith)))

module _ {b : DataBlock} (v : Packed b) where
  pub total-le : total_of (mem b) ≤ 340
  total-le = omega (arith, v.counted, v.fits)

  pub no_gap : count (λ h. h.record_id == 0) (headers_of (mem b) (total_of (mem b)) 0) ≡ 0
  no_gap =
      count_none (λ h. h.record_id == 0) (mem b) (total_of (mem b)) 0
        (λ j x y. ==_of_ne _ 0 (v.live j (omega arith)))

  -- `FreeSpaceForInsert` of a block without gaps: what is left once the new header is paid for.
  pub free_space_for_insert_packed : free_space_for_insert b ≡ ok (4096 - used_of (mem b) - 12)
  unfolding free_space_for_insert without_header
  free_space_for_insert_packed =
      rw
        (
          utilization-ok b v.whole,
          parse_headers-ok b v.whole total-le,
          find_header-none (λ h. h.record_id == 0) _ no_gap,
        )
        (ground (arith, v.fits))
