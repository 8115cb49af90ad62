-- ===== src/Core/RecordBlock/Tests.antt =====
-- Records added to, read from and removed from a zeroed block of 4096 bytes.
use pucrs_metadata_db.Base.{
  ℕ, zero, suc, ◌+◌, ◌-◌, ◌%◌, ◌≤◌, ◌<◌, ◌≡◌, refl, sym, ap, subst, ◌∙◌, ◌≢◌, Bool, arith, ◌==◌,
  leb, if◌then◌else◌, List, [], ◌∷◌, Result, ok, err, invalid_local_id, ◌>>=◌,
}
use pucrs_metadata_db.Dbio.Bytes.{Mem, poke, peek16, peek32, poke16, poke32, slice, poke_all}
use pucrs_metadata_db.Dbio.DataBlock.{
  DataBlock, mem, read_uint8, read_uint16, read_uint32, read_string, width, written, write,
}
use pucrs_metadata_db.Dbio.DataBlock.Unshift.{IsByteMem}
use pucrs_metadata_db.Core.RecordBlock.{
  Header, add, add_at, parse_headers, parse_loop, parse_header, utilization, header_ptr,
  find_header, reusable, starts_at, write_record, total_headers_check, live_header_ptr,
}
use pucrs_metadata_db.Core.RecordBlock.Headers.{id_of, start_of, size_of, total_of, used_of}
use pucrs_metadata_db.Core.RecordBlock.Methods.{
  remove, soft_remove, prev_block_id, read_record_data, chained_row_id, free_space_for_insert,
}
use pucrs_metadata_db.Core.RecordBlock.Sorter.{IsSorter, IsAscending, count}
use pucrs_metadata_db.Core.RecordBlock.Packed.{Packed, free_space_for_insert_packed}
use pucrs_metadata_db.Core.RecordBlock.AddLaws.{Fits, add-Packed, add_keeps}
use pucrs_metadata_db.Core.RecordBlock.Remove.{IsBlock, Packed-IsBlock, read_record_data-remove}
use pucrs_metadata_db.Core.RecordBlock.SoftRemove.{soft_remove_neighbour}

run : Unit {0}
unfolding poke peek16 peek32 poke16 poke32 slice poke_all read_uint8 read_uint16 read_uint32
    read_string width written write add add_at parse_headers parse_loop parse_header utilization
    header_ptr find_header reusable starts_at write_record total_headers_check live_header_ptr
    remove soft_remove read_record_data prev_block_id
run = tt

abbrev pub insert : Header → List Header → List Header
insert h [] = h ∷ []
insert h (k ∷ hs) = if leb h.starts_at k.starts_at then h ∷ k ∷ hs else k ∷ insert h hs

abbrev pub isort : List Header → List Header
isort [] = []
isort (h ∷ hs) = insert h (isort hs)

count-insert :
    (p : Header → Bool) (h : Header) (hs : List Header) → count p (insert h hs) ≡ count p (h ∷ hs)
count-insert p h [] = refl
count-insert p h (k ∷ hs) = ground (arith, count-insert p h hs)

count-isort : (p : Header → Bool) (hs : List Header) → count p (isort hs) ≡ count p hs
count-isort p [] = refl
count-isort p (h ∷ hs) = omega (arith, count-insert p h (isort hs), count-isort p hs)

insert-IsAscending : (h : Header) (hs : List Header) → IsAscending hs → IsAscending (insert h hs)
insert-IsAscending h [] a = tt
insert-IsAscending h (k ∷ []) a = ground arith
insert-IsAscending h (k ∷ l ∷ hs) a = ground (arith, insert-IsAscending h (l ∷ hs) a.1)

isort-IsAscending : (hs : List Header) → IsAscending (isort hs)
isort-IsAscending [] = tt
isort-IsAscending (h ∷ hs) = insert-IsAscending h (isort hs) (isort-IsAscending hs)

pub isort-IsSorter : IsSorter isort
isort-IsSorter = record { counts = count-isort; ascending = isort-IsAscending }

abbrev pub empty : DataBlock
empty = record { id = 3; contents = record { len = 4096; byte = λ _. 0 } }

abbrev pub fox : List ℕ
fox = 102 ∷ 111 ∷ 120 ∷ []

abbrev pub ox : List ℕ
ox = 111 ∷ 120 ∷ []

empty-total : total_of (mem empty) ≡ 0
unfolding peek16
empty-total = refl

empty-used : used_of (mem empty) ≡ 8
unfolding peek16
empty-used = refl

pub empty-Packed : Packed empty
empty-Packed = record {
  whole = refl;
  counted = omega (arith, empty-total, empty-used);
  fits = omega (arith, empty-used);
  live = λ i h e. omega (arith, h, empty-total);
  below = λ i h. omega (arith, h, empty-total);
}

-- `free_space_for_insert` of an empty block
empty_free : free_space_for_insert empty ≡ ok (4096 - used_of (mem empty) - 12)
empty_free = free_space_for_insert_packed empty-Packed

pub fox-Fits : Fits empty 7 fox
fox-Fits = record {
  id_positive = omega arith;
  id_small = omega arith;
  fresh = λ i h e. omega (arith, h, empty-total);
  all_bytes = (omega arith, (omega arith, (omega arith, tt)));
  free = 4076;
  free_said = empty_free ∙ ap ok (omega (arith, empty-used));
  free_positive = omega arith;
  enough = omega arith;
}

add-Packed_example :
    (b' : DataBlock) × (add isort empty 7 fox ≡ ok (b', total_of (mem empty)))
    × Packed b'
    × (total_of (mem b') ≡ total_of (mem empty) + 1)
add-Packed_example = add-Packed isort-IsSorter empty-Packed 7 fox fox-Fits

abbrev pub block_of : Result (DataBlock × ℕ) → DataBlock
block_of (ok r) = r.0
block_of _ = empty

-- the empty block with one record, and with two
abbrev pub one_record : DataBlock
one_record = block_of (add isort empty 7 fox)

pub one_record_parts :
    record { id = 3; contents = record { len = 4096; byte = mem one_record } } ≡ one_record
unfolding run
one_record_parts = refl

pub one_record_read :
    (read_record_data one_record 0 ≡ ok fox)
    × (chained_row_id one_record 0 ≡ ok (record { data_block_id = 0; local_id = 0 }))
unfolding run chained_row_id
one_record_read = (refl, refl)

-- the block with one record, whose row goes on at row 0 of block 4
abbrev pub chained_mem : Mem
chained_mem = poke16 (mem one_record) 4084 4

pub chained_read :
    (read_record_data (record { id = 3; contents = record { len = 4096; byte = chained_mem } }) 0
      ≡ ok fox)
    × (chained_row_id (record { id = 3; contents = record { len = 4096; byte = chained_mem } }) 0
        ≡ ok (record { data_block_id = 4; local_id = 0 }))
unfolding run chained_row_id
chained_read = (refl, refl)

pub second_read :
    (read_record_data (record { id = 4; contents = record { len = 4096; byte = mem one_record } }) 0
      ≡ ok fox)
    × (chained_row_id (record { id = 4; contents = record { len = 4096; byte = mem one_record } }) 0
        ≡ ok (record { data_block_id = 0; local_id = 0 }))
unfolding run chained_row_id
second_read = (refl, refl)

abbrev two_records : DataBlock
two_records = block_of (add isort one_record 70000 ox)

pub one_record-Packed : Packed one_record × (total_of (mem one_record) ≡ 1)
one_record-Packed =
    let (b', e, v, t) = add-Packed_example in
    subst (λ b. Packed b × (total_of (mem b) ≡ 1)) (sym (ap block_of e))
      (v, omega (arith, t, empty-total))

one_free : free_space_for_insert one_record ≡ ok (4096 - used_of (mem one_record) - 12)
one_free = free_space_for_insert_packed one_record-Packed.0

one_used : used_of (mem one_record) ≡ 23
unfolding run
one_used = refl

one_id : id_of (mem one_record) 0 ≡ 7
unfolding run
one_id = refl

one_fresh : (i : ℕ) → i < total_of (mem one_record) → id_of (mem one_record) i ≢ 70000
one_fresh zero h e = omega (arith, one_id)
one_fresh (suc i) h e = omega (arith, h, one_record-Packed.1)

pub ox-Fits : Fits one_record 70000 ox
ox-Fits = record {
  id_positive = omega arith;
  id_small = omega arith;
  fresh = one_fresh;
  all_bytes = (omega arith, (omega arith, tt));
  free = 4061;
  free_said = one_free ∙ ap ok (omega (arith, one_used));
  free_positive = omega arith;
  enough = omega arith;
}

first_listed : 0 < total_of (mem one_record)
first_listed = omega (arith, one_record-Packed.1)

add_keeps_example :
    ((add isort one_record 70000 ox >>= λ r. read_record_data r.0 0)
      ≡ read_record_data one_record 0)
    × ((add isort one_record 70000 ox >>= λ r. chained_row_id r.0 0) ≡ chained_row_id one_record 0)
add_keeps_example = add_keeps isort-IsSorter one_record-Packed.0 70000 ox ox-Fits 0 first_listed

two_records-Packed : Packed two_records × (total_of (mem two_records) ≡ 2)
two_records-Packed =
    let (b', e, v, t) = add-Packed isort-IsSorter one_record-Packed.0 70000 ox ox-Fits in
    subst (λ b. Packed b × (total_of (mem b) ≡ 2)) (sym (ap block_of e))
      (v, omega (arith, t, one_record-Packed.1))

two-IsBlock : IsBlock two_records
two-IsBlock = Packed-IsBlock two_records-Packed.0

both_listed : 1 < total_of (mem two_records)
both_listed = omega (arith, two_records-Packed.1)

read_record_data-remove_example :
    (remove two_records 1 >>= λ b'. read_record_data b' 0)
    ≡ (if 0 == 1 then err invalid_local_id else read_record_data two_records 0)
read_record_data-remove_example = read_record_data-remove two-IsBlock 1 both_listed 0

two_sizes : (used_of (mem two_records) ≡ 37) × (size_of (mem two_records) 1 ≡ 2)
unfolding run
two_sizes = (refl, refl)

-- two headers, the first of record 70000
abbrev headers_only : DataBlock
headers_only = record empty {
  contents = record { len = 4096; byte = poke16 (poke32 (λ _. 0) 4076 70000) 4092 2 };
}

headers_only-IsByteMem : IsByteMem (mem headers_only)
unfolding poke16 poke32 poke
headers_only-IsByteMem i = ground arith

headers_only-total : total_of (mem headers_only) ≡ 2
unfolding run
headers_only-total = refl

headers_only-empty :
    (i : ℕ) → i < 2 → start_of (mem headers_only) i + size_of (mem headers_only) i ≤ 4000
unfolding run
headers_only-empty zero h = omega arith
headers_only-empty (suc zero) h = omega arith
headers_only-empty (suc (suc i)) h = omega arith

headers_only-IsBlock : IsBlock headers_only
headers_only-IsBlock = record {
  whole = refl;
  table = omega (arith, headers_only-total);
  below = λ i h. omega (arith, headers_only-total, headers_only-empty i);
}

soft_remove_neighbour_example :
    (soft_remove headers_only 1 >>= λ b'. parse_header b' 0)
    ≡ (parse_header headers_only 0 >>= λ h. ok (record h { record_id = h.record_id % 65536 }))
soft_remove_neighbour_example =
    soft_remove_neighbour headers_only-IsBlock 0 headers_only-IsByteMem
      (omega (arith, headers_only-total))
