-- ===== src/Core/RecordAllocator/Tests.antt =====
-- A formatted file of eight blocks: without records, with one record, and with a record over two blocks.
use pucrs_metadata_db.Base.{
  ℕ, ◌<◌, ◌≡◌, refl, ap, subst, sym, ◌∙◌, arith, ◌==◌, if◌then◌else◌, some, ok, ◌++◌,
}
use pucrs_metadata_db.Dbio.Bytes.{Mem, peek16}
use pucrs_metadata_db.Dbio.DataBlock.{mem}
use pucrs_metadata_db.Dbio.DataFile.{FewBlocks, fake_data_file, read_block_func}
use pucrs_metadata_db.Dbio.DataBuffer.{DataBuffer, new_data_buffer}
use pucrs_metadata_db.Dbio.DataBuffer.Total.{fake-IsReliable}
use pucrs_metadata_db.Core.Repository.Sees.{Store, block_in, Sees, new_data_buffer-Sees}
use pucrs_metadata_db.Core.RecordBlock.{RowId}
use pucrs_metadata_db.Core.RecordBlock.Methods.{read_record_data, chained_row_id}
use pucrs_metadata_db.Core.RecordBlock.Packed.{Packed}
use pucrs_metadata_db.Core.RecordBlock.AddLaws.{Fits}
use pucrs_metadata_db.Core.RecordBlock.Tests.{
  isort, isort-IsSorter, fox, ox, one_record, one_record-Packed, ox-Fits, one_record_parts,
  one_record_read, chained_mem, chained_read, second_read,
}
use pucrs_metadata_db.Core.RecordLoader.{Record, load}
use pucrs_metadata_db.Core.RecordLoader.Holds.{Piece, Holds, last, chained, load-Holds}
use pucrs_metadata_db.Core.RecordAllocator.{add_record}
use pucrs_metadata_db.Dbio.BitMap
use pucrs_metadata_db.Core.DataBlocksMap.Flags.{IsFirst}
use pucrs_metadata_db.Core.DataBlocksMap.Spec.{IsByteStore, in_use}
use pucrs_metadata_db.Core.RecordAllocator.BlocksList.{allocate_new_block}
use pucrs_metadata_db.Core.RecordAllocator.Allocate.{IsAppended, allocate_new_block-Sees}
use pucrs_metadata_db.Core.RecordAllocator.Fitting.{add_record_keeps}

abbrev pub Buffer : Type 0
Buffer = DataBuffer fake_data_file

-- block 0 says that new records go to block 3
abbrev pub control : Mem
control = λ p. if p == 1 then 3 else if p == 3 then 3 else 0

-- the flags of the blocks 0, 1, 2 and 3
abbrev pub flags : Mem
flags = λ p. if p == 0 then 7 else 0

abbrev pub formatted : Store
formatted = λ i. if i == 0 then control else if i == 1 then flags else λ _. 0

abbrev pub with_fox : Store
with_fox = λ i. if i == 0 then control else if i == 3 then mem one_record else λ _. 0

abbrev pub eight_blocks : Store → FewBlocks
eight_blocks σ = (record { count = 8; blocks = σ }, omega arith)

abbrev pub buffer : Store → Buffer
buffer σ = new_data_buffer fake_data_file (eight_blocks σ) 5

pub buffer-Sees : (σ : Store) → Sees (fake-IsReliable 8) (buffer σ) σ
unfolding read_block_func
buffer-Sees σ =
    new_data_buffer-Sees (fake-IsReliable 8) (eight_blocks σ) 5 σ (omega arith) refl
      (λ i h. ground arith)

pub three_small : 3 < 8
three_small = omega arith

abbrev pub fox_record : Record
fox_record = record { id = 7; record_data = fox }

abbrev pub ox_record : Record
ox_record = record { id = 70000; record_data = ox }

pub with_fox-Packed : Packed (block_in with_fox 3)
with_fox-Packed = subst (λ b. Packed b) (sym one_record_parts) one_record-Packed.0

pub with_fox-Fits : Fits (block_in with_fox 3) 70000 ox
with_fox-Fits = subst (λ b. Fits b 70000 ox) (sym one_record_parts) ox-Fits

abbrev pub fox_row : RowId
fox_row = record { data_block_id = 3; local_id = 0 }

pub fox-Piece : Piece 8 with_fox fox_row fox (record { data_block_id = 0; local_id = 0 })
fox-Piece = record {
  inside = omega arith;
  reads = ap (λ b. read_record_data b 0) one_record_parts ∙ one_record_read.0;
  points = ap (λ b. chained_row_id b 0) one_record_parts ∙ one_record_read.1;
}

fox-Holds : Holds 8 with_fox 0 fox_row fox
fox-Holds = last fox_row fox (record { data_block_id = 0; local_id = 0 }) fox-Piece refl

add_record_keeps_example :
    (db' db'' : Buffer) × (new_row : RowId) × (add_record isort 1 ox_record (buffer with_fox)
      ≡ (db', ok new_row))
    × (load 0 7 fox_row db' ≡ (db'', ok fox_record))
unfolding peek16
add_record_keeps_example =
    add_record_keeps (fake-IsReliable 8) isort-IsSorter with_fox ox_record three_small
      with_fox-Packed with_fox-Fits 0 0 7 fox_row fox (buffer with_fox) (buffer-Sees with_fox)
      fox-Holds

pub formatted-IsByteStore : IsByteStore formatted
formatted-IsByteStore i p = ground arith

allocate_new_block-Sees_example :
    (db' : Buffer) × (id : ℕ) × (τ : Store) × (allocate_new_block 3 (buffer formatted)
      ≡ (db', ok id))
    × IsFirst (in_use formatted) 0 8192 (some id)
    × Sees (fake-IsReliable 8) db' τ
    × IsAppended formatted τ 3 id
unfolding BitMap.new_from_bytes
allocate_new_block-Sees_example =
    allocate_new_block-Sees (fake-IsReliable 8) formatted formatted-IsByteStore 3 (omega arith)
      (omega arith) (omega arith) (buffer formatted) 4 (buffer-Sees formatted) refl refl refl refl
      refl (omega arith) (omega arith)

-- a record over block 3 and block 4
abbrev with_chain : Store
with_chain = λ i. if i == 3 then chained_mem else if i == 4 then mem one_record else λ _. 0

abbrev second_row : RowId
second_row = record { data_block_id = 4; local_id = 0 }

second-Holds : Holds 8 with_chain 0 second_row fox
second-Holds =
    last second_row fox (record { data_block_id = 0; local_id = 0 })
      (record { inside = omega arith; reads = second_read.0; points = second_read.1 }) refl

chain-Holds : Holds 8 with_chain 1 fox_row (fox ++ fox)
chain-Holds =
    chained 0 fox_row fox second_row fox
      (record { inside = omega arith; reads = chained_read.0; points = chained_read.1 })
      (omega arith) second-Holds

load-Holds_example :
    (db' : Buffer) × (load 1 7 fox_row (buffer with_chain)
      ≡ (db', ok (record { id = 7; record_data = fox ++ fox })))
    × Sees (fake-IsReliable 8) db' with_chain
load-Holds_example =
    load-Holds (fake-IsReliable 8) with_chain 1 1 7 fox_row (fox ++ fox) (buffer with_chain)
      (buffer-Sees with_chain) chain-Holds (omega arith)
