-- ===== src/Core/DataBlocksMap/Spec.antt =====
-- The map of blocks as a set: what each operation does to it.
use pucrs_metadata_db.Base.{
  ℕ, ◌+◌, ◌/◌, ◌%◌, ◌<◌, ◌≡◌, ap, ◌∙◌, arith, Bool, true, false, ◌&&◌, ◌==◌, if◌then◌else◌, some,
  Result, ok, must,
}
use pucrs_metadata_db.Base.Int.{ℤ}
use pucrs_metadata_db.Dbio.Bytes.{Mem, poke}
use pucrs_metadata_db.Dbio.DataBlock.{with_mem}
use pucrs_metadata_db.Dbio.DataBlock.Unshift.{IsByteMem}
use pucrs_metadata_db.Dbio.DataFile.{DataFile}
use pucrs_metadata_db.Dbio.DataBuffer.{DataBuffer}
use pucrs_metadata_db.Dbio.DataBuffer.Total.{IsReliable}
use pucrs_metadata_db.Dbio.BitMap
use pucrs_metadata_db.Dbio.BitMap.{BitMap}
use pucrs_metadata_db.Dbio.BitMap.Laws.{
  Holds, same_bit, flag, flipped, get-ok, set-ok, unset-ok, flag-flipped, flag-same_bit,
}
use pucrs_metadata_db.Core.Repository.{Handle, fetch}
use pucrs_metadata_db.Core.Repository.Sees.{
  Store, put_block, block_in, Sees, bind-ok, fetch-Sees, look-Sees, change-Sees,
}
use pucrs_metadata_db.Core.DataBlocksMap.{
  update_flags, flag_at, tuple_for_block_id, update_bit_map, mark_as_free, mark_as_used, is_in_use,
}

-- The block of the map with the flag of block `id`.
abbrev pub map_block : ℕ → ℕ
map_block id = 1 + id / 4096

abbrev pub bits : Store → ℕ → BitMap
bits σ k = BitMap.new_from_bytes (block_in σ k).contents

-- Whether the store says that block `id` is in use.
abbrev pub in_use : Store → ℕ → Bool
in_use σ id = flag (bits σ (map_block id)) (id % 4096)

-- The two blocks have one flag: their flags share a bit.
abbrev pub same_flag : ℕ → ℕ → Bool
same_flag i j = (map_block i == map_block j) && same_bit (i % 4096) (j % 4096)

abbrev pub IsByteStore : Store → Type 0
IsByteStore σ = (i : ℕ) → IsByteMem (σ i)

bits-Holds : (σ : Store) (k j : ℕ) → IsByteStore σ → j < 4096 → Holds (bits σ k) j
unfolding BitMap.new_from_bytes
bits-Holds σ k j b h = record {
  bytes_below_256 = b k;
  in_size = omega arith;
  in_vals = omega arith;
}

flag_at-ok :
    (σ : Store) (k j : ℕ)
    → IsByteStore σ
    → j < 4096
    → flag_at j (block_in σ k) ≡ ok (flag (bits σ k) j)
unfolding flag_at BitMap.new_from_bytes
flag_at-ok σ k j b h = ap must (get-ok (bits σ k) j (omega arith) (omega arith))

abbrev after_set : BitMap → ℕ → BitMap
after_set b j = if flag b j then b else flipped b j

abbrev after_unset : BitMap → ℕ → BitMap
after_unset b j = if flag b j then flipped b j else b

-- The stores with the flag of `id` set and cleared.
abbrev pub with_used : Store → ℕ → Store
with_used σ id =
    put_block σ (map_block id) (after_set (bits σ (map_block id)) (id % 4096)).vals.byte

abbrev pub with_free : Store → ℕ → Store
with_free σ id =
    put_block σ (map_block id) (after_unset (bits σ (map_block id)) (id % 4096)).vals.byte

module _ (σ : Store) (b : IsByteStore σ) where
  update-set :
      (k j : ℕ)
      → j < 4096
      → update_flags BitMap.set j (block_in σ k)
        ≡ ok (with_mem (block_in σ k) (after_set (bits σ k) j).vals.byte)
  unfolding update_flags BitMap.bytes
  update-set k j h = rw (update_flags, set-ok (bits σ k) j (bits-Holds σ k j b h))

  update-unset :
      (k j : ℕ)
      → j < 4096
      → update_flags BitMap.unset j (block_in σ k)
        ≡ ok (with_mem (block_in σ k) (after_unset (bits σ k) j).vals.byte)
  unfolding update_flags BitMap.bytes
  update-unset k j h = rw (update_flags, unset-ok (bits σ k) j (bits-Holds σ k j b h))

  -- The flags of the new stores.
  pub in_use-with_used :
      (i j : ℕ) → in_use (with_used σ i) j ≡ (if same_flag i j then true else in_use σ j)
  unfolding BitMap.new_from_bytes
  in_use-with_used i j = ground (
    arith,
    flag-flipped (bits σ (map_block i)) (i % 4096) (j % 4096)
        (bits-Holds σ (map_block i) (i % 4096) b (omega arith))
        (bits-Holds σ (map_block i) (j % 4096) b (omega arith)),
    flag-same_bit (bits σ (map_block i)) (i % 4096) (j % 4096)
        (bits-Holds σ (map_block i) (i % 4096) b (omega arith))
        (bits-Holds σ (map_block i) (j % 4096) b (omega arith)),
  )

  pub in_use-with_free :
      (i j : ℕ) → in_use (with_free σ i) j ≡ (if same_flag i j then false else in_use σ j)
  unfolding BitMap.new_from_bytes
  in_use-with_free i j = ground (
    arith,
    flag-flipped (bits σ (map_block i)) (i % 4096) (j % 4096)
        (bits-Holds σ (map_block i) (i % 4096) b (omega arith))
        (bits-Holds σ (map_block i) (j % 4096) b (omega arith)),
    flag-same_bit (bits σ (map_block i)) (i % 4096) (j % 4096)
        (bits-Holds σ (map_block i) (i % 4096) b (omega arith))
        (bits-Holds σ (map_block i) (j % 4096) b (omega arith)),
  )

  pub with_used-IsByteStore : (i : ℕ) → IsByteStore (with_used σ i)
  unfolding BitMap.new_from_bytes poke
  with_used-IsByteStore i k n = ground (arith, b k n, b (map_block i) n)

  pub with_free-IsByteStore : (i : ℕ) → IsByteStore (with_free σ i)
  unfolding BitMap.new_from_bytes poke
  with_free-IsByteStore i k n = ground (arith, b k n, b (map_block i) n)

module _ {df : DataFile} {blocks : ℕ} {Good : df.File → Type 0}
    (reliable : IsReliable df blocks Good) (db : DataBuffer df) (σ : Store) (s : Sees reliable db σ)
    (b : IsByteStore σ) (id : ℕ) (inside : map_block id < blocks) where
  -- The fetch that every operation starts with.
  tuple-Sees :
      (db' : DataBuffer df) × (k : ℕ) × (tuple_for_block_id id db
        ≡ (db', ok (record { id = map_block id; frame = k }, id % 4096)))
      × Sees reliable db' σ
      × (db'.id_to_frame (map_block id) ≡ some k)
  unfolding tuple_for_block_id
  tuple-Sees =
      let (db', k, e, s', held) = fetch-Sees reliable db σ (map_block id) s inside in
      (db', k, bind-ok (fetch (map_block id)) _ db db' _ e, s', held)

  -- `IsInUse` answers from the flag of the block and changes no byte.
  pub is_in_use-Sees :
      (db' : DataBuffer df) × (is_in_use id db ≡ (db', ok (in_use σ id))) × Sees reliable db' σ
  unfolding is_in_use
  is_in_use-Sees =
      let (db', k, e, s', held) = tuple-Sees in
      let h : Handle = record { id = map_block id; frame = k } in
      (
        db',
        bind-ok (tuple_for_block_id id) _ db db' _ e
            ∙ look-Sees reliable db' σ h s' held (flag_at (id % 4096))
            ∙ ap (λ (r : Result Bool). (db', r))
                (flag_at-ok σ (map_block id) (id % 4096) b (omega arith)),
        s',
      )

  update-Sees :
      (f : BitMap → ℤ → Result BitMap) (m : Mem)
      → update_flags f (id % 4096) (block_in σ (map_block id))
        ≡ ok (with_mem (block_in σ (map_block id)) m)
      → (db' : DataBuffer df) × (update_bit_map id f db ≡ (db', ok tt))
        × Sees reliable db' (put_block σ (map_block id) m)
  unfolding update_bit_map
  update-Sees f m q =
      let (db', k, e, s', held) = tuple-Sees in
      let h : Handle = record { id = map_block id; frame = k } in
      let (db'', e', s'', _) =
        change-Sees reliable db' σ h s' held (update_flags f (id % 4096)) _ q in
      (db'', bind-ok (tuple_for_block_id id) _ db db' _ e ∙ e', s'')

  -- `MarkAsUsed` sets the flag of the block in the map, and changes nothing else.
  pub mark_as_used-Sees :
      (db' : DataBuffer df) × (mark_as_used id db ≡ (db', ok tt))
      × Sees reliable db' (with_used σ id)
  unfolding mark_as_used
  mark_as_used-Sees =
      update-Sees BitMap.set _ (update-set σ b (map_block id) (id % 4096) (omega arith))

  -- `MarkAsFree` clears it likewise.
  pub mark_as_free-Sees :
      (db' : DataBuffer df) × (mark_as_free id db ≡ (db', ok tt))
      × Sees reliable db' (with_free σ id)
  unfolding mark_as_free
  mark_as_free-Sees =
      update-Sees BitMap.unset _ (update-unset σ b (map_block id) (id % 4096) (omega arith))

module _ {df : DataFile} {blocks : ℕ} {Good : df.File → Type 0}
    (reliable : IsReliable df blocks Good) (db : DataBuffer df) (σ : Store) (s : Sees reliable db σ)
    (b : IsByteStore σ) (i j : ℕ) (i_inside : map_block i < blocks)
    (j_inside : map_block j < blocks) where
  -- On a buffer whose blocks hold bytes, after `MarkAsUsed(i)` the answer of `IsInUse(j)` is yes if the
  -- two blocks have one flag, and what the store says of `j` otherwise.
  pub is_in_use-mark_as_used :
      (db' db'' : DataBuffer df) × (mark_as_used i db ≡ (db', ok tt))
      × (is_in_use j db' ≡ (db'', ok (if same_flag i j then true else in_use σ j)))
  is_in_use-mark_as_used =
      let (db', e, s') = mark_as_used-Sees reliable db σ s b i i_inside in
      let (db'', e', _) =
        is_in_use-Sees reliable db' (with_used σ i) s' (with_used-IsByteStore σ b i) j j_inside in
      (db', db'', e, e' ∙ ap (λ (x : Bool). (db'', ok x)) (in_use-with_used σ b i j))

  -- On a buffer whose blocks hold bytes, after `MarkAsFree(i)` the answer of `IsInUse(j)` is no if the
  -- two blocks have one flag, and what the store says of `j` otherwise.
  pub is_in_use-mark_as_free :
      (db' db'' : DataBuffer df) × (mark_as_free i db ≡ (db', ok tt))
      × (is_in_use j db' ≡ (db'', ok (if same_flag i j then false else in_use σ j)))
  is_in_use-mark_as_free =
      let (db', e, s') = mark_as_free-Sees reliable db σ s b i i_inside in
      let (db'', e', _) =
        is_in_use-Sees reliable db' (with_free σ i) s' (with_free-IsByteStore σ b i) j j_inside in
      (db', db'', e, e' ∙ ap (λ (x : Bool). (db'', ok x)) (in_use-with_free σ b i j))
