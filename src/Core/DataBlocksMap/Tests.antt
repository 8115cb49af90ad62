-- ===== src/Core/DataBlocksMap/Tests.antt =====
-- A file of eight blocks with none in use.
use pucrs_metadata_db.Base.{
  ℕ, ◌≡◌, arith, if◌then◌else◌, none, some, ok, refl, sym, ◌∙◌, zero, suc, List, get_elem?, true,
  false, ◌⊎◌, [], ◌∷◌, ◌<◌, ◌==◌,
}
use pucrs_metadata_db.Core.DataBlocksMap.{
  update_flags, tuple_for_block_id, update_bit_map, mark_loop, mark_as_used, mark_as_free,
  is_in_use, first_free, format_if_needed,
}
use pucrs_metadata_db.Core.ControlBlock.{
  format, next_available_records_data_block_id, set_first_record_data_block,
  set_next_available_records_data_block_id, set_first_leaf, set_index_root_block_id,
}
use pucrs_metadata_db.Core.Repository.{handle_of, fetch, look, stored, change, dirty}
use pucrs_metadata_db.Dbio.BitMap
use pucrs_metadata_db.Core.DataBlocksMap.Flags.{IsFirst}
use pucrs_metadata_db.Core.DataBlocksMap.Spec.{
  IsByteStore, same_flag, in_use, is_in_use-mark_as_used, is_in_use-mark_as_free,
}
use pucrs_metadata_db.Core.DataBlocksMap.Search.{first_free-Sees}
use pucrs_metadata_db.Core.Repository.Sees.{Store, Sees, new_data_buffer-Sees}
use pucrs_metadata_db.Dbio.Bytes.{peek16, poke, poke16}
use pucrs_metadata_db.Dbio.DataBlock.{read_uint16, write, width, written}
use pucrs_metadata_db.Core.DataBlocksMap.Format.{
  IsFormatted, format_if_needed_skips, format_if_needed-IsFormatted,
}
use pucrs_metadata_db.Dbio.DataFile.{
  FewBlocks, fake_data_file, read_block_func, write_block_func, new_fake_data_file,
}
use pucrs_metadata_db.Dbio.DataBuffer.{
  DataBuffer, new_data_buffer, free_loop, filled, fill_with, fill, fill_free, fetch_miss, fetch_hit,
  fetch_block, mark_as_dirty, store_block, flushed, flush, sync,
}
use pucrs_metadata_db.Dbio.DataBuffer.Total.{fake-IsReliable}

abbrev pub Buffer : Type 0
Buffer = DataBuffer fake_data_file

pub few : (new_fake_data_file 8).count < 65536
unfolding new_fake_data_file
few = omega arith

abbrev pub new_file : FewBlocks
new_file = (new_fake_data_file 8, few)

abbrev pub zeros : Store
zeros = λ _ _. 0

abbrev pub start : Buffer
start = new_data_buffer fake_data_file new_file 5

pub zeros-IsByteStore : IsByteStore zeros
zeros-IsByteStore i p = omega arith

pub start-Sees : Sees (fake-IsReliable 8) start zeros
unfolding read_block_func new_fake_data_file
start-Sees =
    new_data_buffer-Sees (fake-IsReliable 8) new_file 5 zeros (omega arith) refl
      (λ i h. ground arith)

is_in_use-mark_as_used_example :
    (db' db'' : Buffer) × (mark_as_used 5 start ≡ (db', ok tt))
    × (is_in_use 6 db' ≡ (db'', ok (if same_flag 5 6 then true else in_use zeros 6)))
is_in_use-mark_as_used_example =
    is_in_use-mark_as_used (fake-IsReliable 8) start zeros start-Sees zeros-IsByteStore 5 6
      (omega arith) (omega arith)

is_in_use-mark_as_free_example :
    (db' db'' : Buffer) × (mark_as_free 5 start ≡ (db', ok tt))
    × (is_in_use 6 db' ≡ (db'', ok (if same_flag 5 6 then false else in_use zeros 6)))
is_in_use-mark_as_free_example =
    is_in_use-mark_as_free (fake-IsReliable 8) start zeros start-Sees zeros-IsByteStore 5 6
      (omega arith) (omega arith)

first_free-Sees_example :
    (db' : Buffer) × (id : ℕ) × (first_free start ≡ (db', ok id))
    × Sees (fake-IsReliable 8) db' zeros
    × (IsFirst (in_use zeros) 0 8192 (some id) ⊎ ((id ≡ 0) × IsFirst (in_use zeros) 0 8192 none))
first_free-Sees_example = first_free-Sees (fake-IsReliable 8) zeros start start-Sees (omega arith)

-- block 0 names block 3 for new records
abbrev with_name : Store
with_name = λ i p. if p == 1 then 3 else 0

abbrev named : FewBlocks
named = (record { count = 8; blocks = with_name }, omega arith)

with_name-Sees : Sees (fake-IsReliable 8) (new_data_buffer fake_data_file named 5) with_name
unfolding read_block_func
with_name-Sees =
    new_data_buffer-Sees (fake-IsReliable 8) named 5 with_name (omega arith) refl
      (λ i h. ground arith)

format_if_needed_skips_example :
    (db' : Buffer) × (format_if_needed (0 ∷ []) (new_data_buffer fake_data_file named 5)
      ≡ (db', ok tt))
    × Sees (fake-IsReliable 8) db' with_name
unfolding peek16
format_if_needed_skips_example =
    format_if_needed_skips (fake-IsReliable 8) (omega arith) _ with_name with_name-Sees (0 ∷ [])
      (omega arith)

abbrev pub order : List ℕ
order = 1 ∷ 0 ∷ []

-- the blocks 0 and 1 are in the buffer
in_buffer :
    (i : ℕ)
    → (format_if_needed order start).0.id_to_frame i
      ≡ (if i == 1 then some 1 else if i == 0 then some 0 else none)
unfolding format_if_needed next_available_records_data_block_id format mark_loop mark_as_used
    update_bit_map update_flags tuple_for_block_id fetch handle_of look stored change dirty
    new_data_buffer new_fake_data_file read_block_func write_block_func free_loop filled fill_with
    fill fill_free fetch_miss fetch_hit fetch_block mark_as_dirty flushed flush sync
    BitMap.new_from_bytes BitMap.check_range BitMap.mask BitMap.val_at BitMap.toggle BitMap.get
    BitMap.set BitMap.bytes peek16 poke poke16 read_uint16 write width written
    set_first_record_data_block set_next_available_records_data_block_id set_first_leaf
    set_index_root_block_id store_block
in_buffer i = refl

pub holds :
    (i k : ℕ)
    → (format_if_needed order start).0.id_to_frame i ≡ some k
    → (q : ℕ) × (get_elem? order q ≡ some i)
holds i k e = ordered i k (sym (in_buffer i) ∙ e)
  where
    ordered :
        (i k : ℕ)
        → (if i == 1 then some 1 else if i == 0 then some 0 else none) ≡ some k
        → (q : ℕ) × (get_elem? order q ≡ some i)
    ordered zero k e = (1, refl)
    ordered (suc zero) k e = (0, refl)
    ordered (suc (suc i)) k e = absurd (ground (arith, e))

pub held :
    (q i : ℕ)
    → get_elem? order q ≡ some i
    → (k : ℕ) × ((format_if_needed order start).0.id_to_frame i ≡ some k)
held zero i e = (1, in_buffer i ∙ ground (arith, e))
held (suc zero) i e = (0, in_buffer i ∙ ground (arith, e))
held (suc (suc q)) i e = absurd (ground (arith, e))

format_if_needed-IsFormatted_example :
    (db' : Buffer) × (τ : Store) × (format_if_needed order start ≡ (db', ok tt))
    × Sees (fake-IsReliable 8) db' τ
    × ((i : ℕ) → i < 8 → read_block_func db'.file.0 i ≡ ok (τ i))
    × IsFormatted zeros τ
unfolding peek16
format_if_needed-IsFormatted_example =
    format_if_needed-IsFormatted (fake-IsReliable 8) (omega arith) start zeros start-Sees order
      zeros-IsByteStore refl holds held
