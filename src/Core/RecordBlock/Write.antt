-- ===== src/Core/RecordBlock/Write.antt =====
-- The writes of `Add`: which bytes hold what afterwards.
use pucrs_metadata_db.Base.{ℕ, ◌+◌, ◌*◌, ◌%◌, ◌≤◌, ◌<◌, ◌≡◌, ◌∙◌, arith, List, length, ok}
use pucrs_metadata_db.Dbio.Bytes.{Mem, peek16, peek32, poke16, poke32, poke_all, slice}
use pucrs_metadata_db.Dbio.Bytes.Laws.{
  Apart, Same, AllBytes, poke16_outside, poke_all_outside, slice-poke_all, slice-Same, peek16-Same,
  peek32-Same, peek16-poke16_self,
}
use pucrs_metadata_db.Dbio.DataBlock.{DataBlock, mem, size, with_mem}
use pucrs_metadata_db.Dbio.DataBlock.Laws.{write16-ok, write32-ok, write_bytes-ok}
use pucrs_metadata_db.Core.RecordBlock.{wrap16, write_record}
use pucrs_metadata_db.Core.RecordBlock.Headers.{at, header_ptr-ok}

-- The twelve bytes of a header.
header_mem : Mem → (p id start n : ℕ) → Mem
header_mem m p id start n =
    poke16 (poke16 (poke16 (poke16 (poke32 m (p + 0) id) (p + 4) start) (p + 6) n) (p + 8) 0)
      (p + 10) 0

-- The whole of what `Add` writes.
pub record_mem : Mem → (p id start used total : ℕ) → List ℕ → Mem
record_mem m p id start used total bytes =
    poke16
      (poke16 (poke_all (header_mem m p id start (length bytes % 65536)) start bytes) 4094
        ((used + length bytes % 65536) % 65536))
      4092 total

module _ (m : Mem) (p id start n : ℕ) (hi : id < 4294967296) (hs : start < 65536)
    (hn : n < 65536) where
  header_mem-fields :
      (peek32 (header_mem m p id start n) (p + 0) ≡ id)
      × (peek16 (header_mem m p id start n) (p + 4) ≡ start)
      × (peek16 (header_mem m p id start n) (p + 6) ≡ n)
      × (peek16 (header_mem m p id start n) (p + 8) ≡ 0)
      × (peek16 (header_mem m p id start n) (p + 10) ≡ 0)
  unfolding header_mem peek32 peek16 poke32 poke16
  header_mem-fields = (ground arith, ground arith, ground arith, ground arith, ground arith)

header_mem_outside :
    (m : Mem) (p id start n i : ℕ) → Apart p 12 i 1 → header_mem m p id start n i ≡ m i
unfolding header_mem poke32 poke16
header_mem_outside m p id start n i h = ground arith

-- The data end below the header, and the header below the four links and counters of the block.
module _ (m : Mem) (p id start used total : ℕ) (bytes : List ℕ) (below : start + length bytes ≤ p)
    (table : p + 12 ≤ 4088) where
  abbrev after : Mem
  after = record_mem m p id start used total bytes

  pub record_mem_outside :
      (i : ℕ) → Apart p 12 i 1 → Apart start (length bytes) i 1 → Apart 4092 4 i 1 → after i ≡ m i
  unfolding record_mem
  record_mem_outside i a b c =
      let n = length bytes % 65536 in
      let h = header_mem m p id start n in
      let d = poke_all h start bytes in
      let u = poke16 d 4094 ((used + n) % 65536) in
      poke16_outside u 4092 total i (omega arith)
      ∙ poke16_outside d 4094 ((used + n) % 65536) i (omega arith)
      ∙ poke_all_outside h start bytes i b
      ∙ header_mem_outside m p id start n i a

  header_kept : Same after (header_mem m p id start (length bytes % 65536)) p 12
  unfolding record_mem
  header_kept i a b =
      let n = length bytes % 65536 in
      let h = header_mem m p id start n in
      let d = poke_all h start bytes in
      let u = poke16 d 4094 ((used + n) % 65536) in
      poke16_outside u 4092 total i (omega arith)
      ∙ poke16_outside d 4094 ((used + n) % 65536) i (omega arith)
      ∙ poke_all_outside h start bytes i (omega arith)

  pub record_mem-slice : AllBytes bytes → slice after start (length bytes) ≡ bytes
  unfolding record_mem
  record_mem-slice h =
      slice-Same after _ start (length bytes) (λ i a b.
        poke16_outside _ 4092 total i (omega arith) ∙ poke16_outside _ 4094 _ i (omega arith))
      ∙ slice-poke_all (header_mem m p id start (length bytes % 65536)) start bytes h

  pub record_mem-total : total < 65536 → peek16 after 4092 ≡ total
  unfolding record_mem
  record_mem-total h = peek16-poke16_self _ 4092 total h

  pub record_mem-used : peek16 after 4094 ≡ (used + length bytes % 65536) % 65536
  unfolding record_mem
  record_mem-used =
      peek16-Same after _ 4094 (λ i a b. poke16_outside _ 4092 total i (omega arith))
      ∙ peek16-poke16_self _ 4094 ((used + length bytes % 65536) % 65536) (omega arith)

  -- The fields of the new header, as a reader finds them.
  pub record_mem-fields :
      id < 4294967296
      → start < 65536
      → length bytes < 65536
      → (peek32 after (p + 0) ≡ id)
        × (peek16 after (p + 4) ≡ start)
        × (peek16 after (p + 6) ≡ length bytes)
        × (peek16 after (p + 8) ≡ 0)
        × (peek16 after (p + 10) ≡ 0)
  record_mem-fields hi hs hn =
      let n = length bytes % 65536 in
      let h = header_mem m p id start n in
      let (a, b, c, d, e) = header_mem-fields m p id start n hi hs (omega arith) in
      (
        peek32-Same after h (p + 0) (λ i x y. header_kept i (omega arith) (omega arith)) ∙ a,
        peek16-Same after h (p + 4) (λ i x y. header_kept i (omega arith) (omega arith)) ∙ b,
        peek16-Same after h (p + 6) (λ i x y. header_kept i (omega arith) (omega arith))
            ∙ c
            ∙ omega arith,
        peek16-Same after h (p + 8) (λ i x y. header_kept i (omega arith) (omega arith)) ∙ d,
        peek16-Same after h (p + 10) (λ i x y. header_kept i (omega arith) (omega arith)) ∙ e,
      )

  -- A field of two or four bytes that lies clear of all that is written is as it was.
  pub record_mem-peek16 :
      (q : ℕ)
      → Apart p 12 q 2
      → Apart start (length bytes) q 2
      → Apart 4092 4 q 2
      → peek16 after q ≡ peek16 m q
  record_mem-peek16 q a b c =
      peek16-Same after m q
        (λ i x y. record_mem_outside i (omega arith) (omega arith) (omega arith))

  pub record_mem-peek32 :
      (q : ℕ)
      → Apart p 12 q 4
      → Apart start (length bytes) q 4
      → Apart 4092 4 q 4
      → peek32 after q ≡ peek32 m q
  record_mem-peek32 q a b c =
      peek32-Same after m q
        (λ i x y. record_mem_outside i (omega arith) (omega arith) (omega arith))

-- In a whole block the writes of `Add` succeed.
pub write_record-ok :
    (b : DataBlock) (i id start used total : ℕ) (bytes : List ℕ)
    → size b ≡ 4096
    → i < 340
    → start + length bytes ≤ 4096
    → write_record b i id start used total bytes
      ≡ ok (with_mem b (record_mem (mem b) (at i) id start used total bytes))
unfolding write_record record_mem header_mem
write_record-ok b i id start used total bytes whole small fits =
    let n = length bytes % 65536 in
    let m1 = poke32 (mem b) (at i + 0) id in
    let m2 = poke16 m1 (at i + 4) start in
    let m3 = poke16 m2 (at i + 6) n in
    let m4 = poke16 m3 (at i + 8) 0 in
    let m5 = poke16 m4 (at i + 10) 0 in
    let m6 = poke_all m5 start bytes in
    let m7 = poke16 m6 4094 ((used + n) % 65536) in
    let place : wrap16 (i * 12) ≡ i * 12 = omega arith in
    rw (
      place,
      header_ptr-ok b whole i small,
      write32-ok b (at i + 0) id (omega arith),
      write16-ok (with_mem b m1) (at i + 4) start (omega arith),
      write16-ok (with_mem b m2) (at i + 6) n (omega arith),
      write16-ok (with_mem b m3) (at i + 8) 0 (omega arith),
      write16-ok (with_mem b m4) (at i + 10) 0 (omega arith),
      write_bytes-ok (with_mem b m5) start bytes (omega arith),
      write16-ok (with_mem b m6) 4094 ((used + n) % 65536) (omega arith),
      write16-ok (with_mem b m7) 4092 total (omega arith),
    )
