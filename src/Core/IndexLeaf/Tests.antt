-- ===== src/Core/IndexLeaf/Tests.antt =====
-- An empty leaf of the index.
use pucrs_metadata_db.Base.{
  ℕ, ◌+◌, ◌-◌, ◌*◌, ◌≤◌, ◌<◌, ◌≡◌, refl, arith, ◌==◌, ltb, if◌then◌else◌, ok,
}
use pucrs_metadata_db.Dbio.Bytes.{peek16}
use pucrs_metadata_db.Dbio.DataBlock.{DataBlock, mem, read_uint16}
use pucrs_metadata_db.Dbio.DataBlock.Unshift.{IsByteMem}
use pucrs_metadata_db.Core.IndexLeaf.{
  IndexEntry, node_total_keys, read_entry, insert_entry, delete_entry,
}
use pucrs_metadata_db.Core.IndexLeaf.Laws.{insert_entry-inserts}
use pucrs_metadata_db.Core.IndexLeaf.Delete.{delete_entry-deletes}

-- type 2, one key: an entry of zeros
abbrev leaf_block : DataBlock
leaf_block = record {
  id = 5;
  contents = record { len = 4096; byte = λ i. if i == 0 then 2 else (if i == 2 then 1 else 0) };
}

leaf_block-IsByteMem : IsByteMem (mem leaf_block)
leaf_block-IsByteMem i = ground arith

leaf_block-total : node_total_keys leaf_block ≡ ok 1
unfolding node_total_keys read_uint16 peek16
leaf_block-total = refl

abbrev nine : IndexEntry
nine = record { key = 900; row_id = record { data_block_id = 3; local_id = 7 } }

insert_entry-inserts_example :
    (b' : DataBlock) × (insert_entry leaf_block 0 nine ≡ ok b')
    × (node_total_keys b' ≡ ok (1 + 1))
    × ((j : ℕ)
        → j ≤ 1
        → read_entry b' (9 + j * 8) ≡ (
            if j == 0
            then ok nine
            else read_entry leaf_block (9 + (if ltb j 0 then j else j - 1) * 8)))
insert_entry-inserts_example =
    insert_entry-inserts leaf_block 1 0 nine refl leaf_block-IsByteMem leaf_block-total
      (omega arith) (omega arith) (omega arith) (omega arith) (omega arith)

delete_entry-deletes_example :
    (entry : IndexEntry) × (b' : DataBlock) × (delete_entry leaf_block 0 ≡ ok (entry, b'))
    × (read_entry leaf_block (9 + 0 * 8) ≡ ok entry)
    × (node_total_keys b' ≡ ok (1 - 1))
    × ((j : ℕ)
        → j + 1 < 1
        → read_entry b' (9 + j * 8)
          ≡ read_entry leaf_block (9 + (if ltb j 0 then j else j + 1) * 8))
delete_entry-deletes_example =
    delete_entry-deletes leaf_block 1 0 refl leaf_block-total (omega arith) (omega arith)
