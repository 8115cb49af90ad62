-- ===== src/Dbio/DataBlock/Tests.antt =====
-- Writes to and shifts of a block of six bytes.
use pucrs_metadata_db.Base.{ℕ, ◌+◌, ◌-◌, ◌≡◌, ◌&&◌, arith, leb, ltb, if◌then◌else◌, ok}
use pucrs_metadata_db.Dbio.Bytes.Laws.{Apart}
use pucrs_metadata_db.Dbio.DataBlock.{DataBlock, uint32, width, mem, size, write, unshift}
use pucrs_metadata_db.Dbio.DataBlock.Laws.{ReadsBack, write-ReadsBack}
use pucrs_metadata_db.Dbio.DataBlock.Unshift.{IsByteMem, unshift_lem}

abbrev six : DataBlock
six = record { id = 1; contents = record { len = 6; byte = λ i. if ltb i 6 then i + 1 else 0 } }

six-IsByteMem : IsByteMem (mem six)
six-IsByteMem i = ground arith

write-ReadsBack_example :
    (db' : DataBlock) × (write six 2 (uint32 70000) ≡ ok db')
    × ReadsBack db' 2 (uint32 70000)
    × ((i : ℕ) → Apart 2 (width (uint32 70000)) i 1 → mem db' i ≡ mem six i)
    × (size db' ≡ size six)
unfolding width
write-ReadsBack_example = write-ReadsBack six 2 (uint32 70000) (omega arith) (omega arith)

unshift_lem_example :
    mem (unshift six 1 2) 4
    ≡ (if leb (1 + 2) 4 && ltb 4 (size six) then mem six (4 - 2) else mem six 4)
unshift_lem_example = unshift_lem six 1 2 4 six-IsByteMem
