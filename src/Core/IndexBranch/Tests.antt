-- ===== src/Core/IndexBranch/Tests.antt =====
-- A branch of the index with one key.
use pucrs_metadata_db.Base.{ℕ, ◌+◌, ◌-◌, ◌≤◌, ◌≡◌, refl, arith, ◌==◌, ltb, leb, if◌then◌else◌, ok}
use pucrs_metadata_db.Dbio.Bytes.{peek16}
use pucrs_metadata_db.Dbio.DataBlock.{DataBlock, mem, read_uint16}
use pucrs_metadata_db.Dbio.DataBlock.Unshift.{IsByteMem}
use pucrs_metadata_db.Core.IndexLeaf.{node_total_keys}
use pucrs_metadata_db.Core.IndexBranch.{branch_key_at, insert_branch_entry}
use pucrs_metadata_db.Core.IndexBranch.Laws.{pointer_at, insert_branch_entry-inserts}

-- type 1, one key: the key 0 between pointers to block 0
abbrev branch_block : DataBlock
branch_block = record {
  id = 5;
  contents = record { len = 4096; byte = λ i. if i == 0 then 1 else (if i == 2 then 1 else 0) };
}

branch_block-IsByteMem : IsByteMem (mem branch_block)
branch_block-IsByteMem i = ground arith

branch_block-total : node_total_keys branch_block ≡ ok 1
unfolding node_total_keys read_uint16 peek16
branch_block-total = refl

insert_branch_entry-inserts_example :
    (b' : DataBlock) × (insert_branch_entry branch_block 1 900 7 ≡ ok b')
    × (node_total_keys b' ≡ ok (1 + 1))
    × ((j : ℕ)
        → j ≤ 1
        → branch_key_at b' j
          ≡ (if j == 1 then ok 900 else branch_key_at branch_block (if ltb j 1 then j else j - 1)))
    × ((j : ℕ)
        → j ≤ 1 + 1
        → pointer_at b' j
          ≡ (if j == 1 + 1 then ok 7 else pointer_at branch_block (if leb j 1 then j else j - 1)))
insert_branch_entry-inserts_example =
    insert_branch_entry-inserts branch_block 1 1 900 7 refl branch_block-IsByteMem
      branch_block-total (omega arith) (omega arith) (omega arith) (omega arith)
