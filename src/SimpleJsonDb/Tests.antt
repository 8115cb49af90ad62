-- ===== src/SimpleJsonDb/Tests.antt =====
-- A database on a new file, and one that is closed with a changed block.
use pucrs_metadata_db.Base.{
  ℕ, zero, suc, ◌<◌, ◌≡◌, refl, sym, ap, subst, ◌∙◌, arith, ◌==◌, if◌then◌else◌, none, some, [],
  ◌∷◌, get_elem?, Result, ok,
}
use pucrs_metadata_db.Dbio.Bytes.{peek16}
use pucrs_metadata_db.Dbio.DataFile.{fake_data_file, FewBlocks, read_block_func, new_fake_data_file}
use pucrs_metadata_db.Dbio.DataBuffer.{
  new_data_buffer, free_loop, filled, fill_with, fill, fill_free, fetch_miss, fetch_hit,
  fetch_block, mark_as_dirty, store_block,
}
use pucrs_metadata_db.Dbio.DataBuffer.Total.{fake-IsReliable}
use pucrs_metadata_db.Dbio.BitMap
use pucrs_metadata_db.Core.Repository.{handle_of, fetch, look, stored, change, dirty}
use pucrs_metadata_db.Core.Repository.Sees.{Store, Sees}
use pucrs_metadata_db.Core.DataBlocksMap.{
  update_flags, tuple_for_block_id, update_bit_map, mark_as_used, format_data_file_if_needed,
}
use pucrs_metadata_db.Core.DataBlocksMap.Spec.{with_used, mark_as_used-Sees}
use pucrs_metadata_db.Core.DataBlocksMap.Format.{IsFormatted}
use pucrs_metadata_db.Core.DataBlocksMap.Tests.{
  Buffer, new_file, zeros, zeros-IsByteStore, order, holds, held,
}
use pucrs_metadata_db.Core.RecordAllocator.Tests.{
  formatted, formatted-IsByteStore, buffer, buffer-Sees,
}
use pucrs_metadata_db.SimpleJsonDb.{new_with_data_file, close}
use pucrs_metadata_db.SimpleJsonDb.Opening.{
  IsOrder, new_with_data_file-IsFormatted, new_with_data_file-close,
}

new_file_blocks : (i : ℕ) → i < 8 → read_block_func new_file.0 i ≡ ok (zeros i)
unfolding read_block_func new_fake_data_file
new_file_blocks i h = ground arith

new_file-IsOrder : IsOrder (format_data_file_if_needed fake_data_file new_file order).0 order
unfolding format_data_file_if_needed
new_file-IsOrder = record { every = holds; held = held }

new_with_data_file-IsFormatted_example :
    (db : Buffer) × (τ : Store) × (new_with_data_file fake_data_file new_file order ≡ ok db)
    × Sees (fake-IsReliable 8) db τ
    × IsFormatted zeros τ
unfolding new_fake_data_file peek16
new_with_data_file-IsFormatted_example =
    new_with_data_file-IsFormatted (fake-IsReliable 8) (omega arith) new_file zeros refl
      new_file_blocks order zeros-IsByteStore refl new_file-IsOrder

-- block 1 is in the buffer, and dirty
abbrev marked : Buffer
marked = (mark_as_used 5 (buffer formatted)).0

abbrev with_five : Store
with_five = with_used formatted 5

marked-Sees : Sees (fake-IsReliable 8) marked with_five
marked-Sees =
    let (db, e, s) =
      mark_as_used-Sees (fake-IsReliable 8) (buffer formatted) formatted (buffer-Sees formatted)
        formatted-IsByteStore 5 (omega arith) in
    subst (λ db. Sees (fake-IsReliable 8) db with_five) (sym (ap (λ r. r.0) e)) s

only_one : (i : ℕ) → marked.id_to_frame i ≡ (if i == 1 then some 0 else none)
unfolding mark_as_used update_bit_map update_flags tuple_for_block_id fetch handle_of look stored
    change dirty new_data_buffer read_block_func free_loop filled fill_with fill fill_free
    fetch_miss fetch_hit fetch_block mark_as_dirty BitMap.new_from_bytes BitMap.check_range
    BitMap.mask BitMap.val_at BitMap.toggle BitMap.get BitMap.set BitMap.bytes store_block
only_one i = refl

one_held : (q i : ℕ) → get_elem? (1 ∷ []) q ≡ some i → (k : ℕ) × (marked.id_to_frame i ≡ some k)
one_held zero i e = (0, only_one i ∙ ground (arith, e))
one_held (suc q) i e = absurd (ground (arith, e))

marked-IsOrder : IsOrder marked (1 ∷ [])
marked-IsOrder = record {
  every = λ i k e. (0, ground (arith, sym (only_one i) ∙ e));
  held = one_held;
}

close_file : FewBlocks → Result (Unit {0})
close_file f = ok tt

new_with_data_file-close_example :
    (db' db'' : Buffer) × (close {df = fake_data_file} close_file (1 ∷ []) marked
      ≡ (db', close_file db'.file))
    × (new_with_data_file fake_data_file db'.file [] ≡ ok db'')
    × Sees (fake-IsReliable 8) db'' with_five
unfolding peek16
new_with_data_file-close_example =
    new_with_data_file-close (fake-IsReliable 8) (omega arith) marked with_five (1 ∷ []) []
      close_file marked-Sees (omega arith) marked-IsOrder
