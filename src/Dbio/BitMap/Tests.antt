-- ===== src/Dbio/BitMap/Tests.antt =====
-- A bitmap over two bytes.
use pucrs_metadata_db.Base.{ℕ, ◌<◌, ◌≡◌, true, false, arith, ◌==◌, if◌then◌else◌, ok, ◌>>=◌}
use pucrs_metadata_db.Base.Int.{pos}
use pucrs_metadata_db.Dbio.Bytes.{Bytes}
use pucrs_metadata_db.Dbio.BitMap.{BitMap, get, set, unset}
use pucrs_metadata_db.Dbio.BitMap.Laws.{Holds, same_bit, get_changed}

abbrev two_bytes : Bytes
two_bytes = record { len = 2; byte = λ i. if i == 1 then 6 else 0 }

abbrev flags : BitMap
flags = record { size = 16; vals = two_bytes }

flags-Holds : (i : ℕ) → i < 16 → Holds flags i
flags-Holds i h = record {
  bytes_below_256 = λ j. ground arith;
  in_size = omega arith;
  in_vals = omega arith;
}

get_changed_example :
    ((set flags (pos 3) >>= λ b'. get b' (pos 10))
      ≡ (if same_bit 3 10 then ok true else get flags (pos 10)))
    × ((unset flags (pos 3) >>= λ b'. get b' (pos 10))
        ≡ (if same_bit 3 10 then ok false else get flags (pos 10)))
get_changed_example =
    get_changed flags 3 10 (flags-Holds 3 (omega arith)) (flags-Holds 10 (omega arith))
