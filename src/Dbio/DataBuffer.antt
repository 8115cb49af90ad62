-- ===== src/Dbio/DataBuffer.antt =====
-- src/simplejsondb/dbio/data_buffer.go: frames of memory in front of the data file, with second-chance
-- eviction.
pub mod Eviction
pub mod Valid
pub mod Fetch
pub mod Change
pub mod Sync
pub mod Total
pub mod Saved
mod Tests
use pucrs_metadata_db.Base.{
  ℕ, zero, suc, ◌+◌, ◌%◌, Bool, true, false, ◌==◌, if◌then◌else◌, Option, none, some, List, [], ◌∷◌,
  ◌++◌, length, get_elem?, take, drop, Result, ok, err, panic, out_of_fuel,
}
use pucrs_metadata_db.Dbio.Bytes.{Mem}
use pucrs_metadata_db.Dbio.DataBlock.{DataBlock}
use pucrs_metadata_db.Dbio.DataFile.{DataFile, datablock_size}

-- `bufferFrame`. A frame's `position` is its index in `frames`.
pub record Frame : Type 0 where
  pub in_use : Bool
  pub referenced : Bool
  pub is_dirty : Bool
  pub contents : Mem

abbrev pub Frames : Type 0
Frames = ℕ → Frame

abbrev pub set_frame : Frames → ℕ → Frame → Frames
set_frame fs k f i = if i == k then f else fs i

abbrev pub blank : Frame
blank = record { in_use = false; referenced = false; is_dirty = false; contents = λ _. 0 }

-- What the eviction chose: the position in the list of victims, the block and its frame.
pub record Victim : Type 0 where
  pub position : ℕ
  pub id : ℕ
  pub frame : ℕ

-- The loop of `evictFrame`: it clears the reference bit of each victim that it passes over.
module _ (next_victims : List ℕ) (id_to_frame : ℕ → Option ℕ) (size : ℕ) where
  unfoldable pub victim_loop : ℕ → ℕ → Frames → Frames × Result Victim
  victim_loop zero p fs = (fs, out_of_fuel)
  victim_loop (suc fuel) p fs = elim (get_elem? next_victims p) [
    | none ↦ (fs, panic)
    | some v ↦ elim (id_to_frame v) [
      | none ↦ (fs, panic)
      | some k ↦ elim ((fs k).referenced) [
        | true ↦
            victim_loop fuel ((p + 1) % size)
              (set_frame fs k (record (fs k) { referenced = false }))
        | false ↦ (fs, ok (record { position = p; id = v; frame = k }))
      ]
    ]
  ]

-- `for i := 0; i < size; i++ { frame = frames[i]; if !frame.inUse { break } }` with `n` rounds left.
-- `none` is the nil frame of a buffer of size 0.
unfoldable pub free_loop : ℕ → ℕ → Frames → Option ℕ → Option ℕ
free_loop zero i fs frame = frame
free_loop (suc n) i fs frame = if (fs i).in_use then free_loop n (i + 1) fs (some i) else some i

module _ (df : DataFile) where
  open df use {File, read_block, write_block}

  -- `idToFrame` maps a block to the index of its frame.
  pub record DataBuffer : Type 0 where
    pub file : File
    pub frames : Frames
    pub id_to_frame : ℕ → Option ℕ
    pub next_victims : List ℕ
    pub size : ℕ

module _ {df : DataFile} where
  abbrev pub with_frames : DataBuffer df → Frames → DataBuffer df
  with_frames db fs = record db { frames = fs }

  abbrev pub update_frame : DataBuffer df → ℕ → Frame → DataBuffer df
  update_frame db k f = record db { frames = set_frame db.frames k f }

  abbrev pub block_of : DataBuffer df → ℕ → ℕ → DataBlock
  block_of db id k = record {
    id = id;
    contents = record { len = datablock_size; byte = (db.frames k).contents };
  }

  -- The end of `evictFrame`: the frame is released and leaves the map and the list.
  unfoldable pub release : DataBuffer df → Victim → DataBuffer df
  release db v = record db {
    frames =
        set_frame db.frames v.frame
          (record (db.frames v.frame) { in_use = false; is_dirty = false });
    id_to_frame = λ j. if j == v.id then none else db.id_to_frame j;
    next_victims = drop (v.position + 1) db.next_victims ++ take v.position db.next_victims;
  }

  -- An error of the file leaves the victim in place.
  unfoldable pub after_write : Victim → DataBuffer df → Result (Unit {0}) → DataBuffer df × Result ℕ
  after_write v db (ok _) = (release db v, ok v.frame)
  after_write v db (err e) = (db, err e)
  after_write v db panic = (db, panic)
  after_write v db out_of_fuel = (db, out_of_fuel)

  -- A dirty victim is written back first.
  unfoldable pub write_back : DataBuffer df → Victim → DataBuffer df × Result ℕ
  write_back db v =
      if (db.frames v.frame).is_dirty
      then (let (file', r) = df.write_block db.file v.id (db.frames v.frame).contents in
          after_write v (record db { file = file' }) r)
      else (release db v, ok v.frame)

  -- The loop comes back to a cleared victim after `size` rounds at the latest.
  unfoldable pub evict_victim : DataBuffer df → Frames × Result Victim → DataBuffer df × Result ℕ
  evict_victim db (fs, ok v) = write_back (with_frames db fs) v
  evict_victim db (fs, err e) = (with_frames db fs, err e)
  evict_victim db (fs, panic) = (with_frames db fs, panic)
  evict_victim db (fs, out_of_fuel) = (with_frames db fs, out_of_fuel)

  unfoldable pub evict_frame : DataBuffer df → DataBuffer df × Result ℕ
  evict_frame db =
      evict_victim db (victim_loop db.next_victims db.id_to_frame db.size (db.size + 1) 0 db.frames)

  -- The buffer after a block with the bytes `m` is read into frame `k`.
  unfoldable pub filled : DataBuffer df → ℕ → ℕ → Bool → Mem → DataBuffer df
  filled db id k needs_evict m = record db {
    frames =
        set_frame db.frames k
          (record (db.frames k) { in_use = true; referenced = needs_evict; contents = m });
    id_to_frame = λ j. if j == id then some k else db.id_to_frame j;
    next_victims = db.next_victims ++ (id ∷ []);
  }

  -- The rest of `FetchBlock` once it has a frame `k`.
  unfoldable pub fill_with :
      DataBuffer df → ℕ → ℕ → Bool → Result Mem → DataBuffer df × Result DataBlock
  fill_with db id k needs_evict (ok m) =
      let db' = filled db id k needs_evict m in (db', ok (block_of db' id k))
  fill_with db id k needs_evict (err e) = (db, err e)
  fill_with db id k needs_evict panic = (db, panic)
  fill_with db id k needs_evict out_of_fuel = (db, out_of_fuel)

  unfoldable pub fill : DataBuffer df → ℕ → ℕ → Bool → DataBuffer df × Result DataBlock
  fill db id k needs_evict = fill_with db id k needs_evict (df.read_block db.file id)

  unfoldable pub fill_evicted : ℕ → DataBuffer df × Result ℕ → DataBuffer df × Result DataBlock
  fill_evicted id (db, ok k) = fill db id k true
  fill_evicted id (db, err e) = (db, err e)
  fill_evicted id (db, panic) = (db, panic)
  fill_evicted id (db, out_of_fuel) = (db, out_of_fuel)

  unfoldable pub fill_free : DataBuffer df → ℕ → Option ℕ → DataBuffer df × Result DataBlock
  fill_free db id none = (db, panic)
  fill_free db id (some k) = fill db id k false

  unfoldable pub fetch_miss : DataBuffer df → ℕ → DataBuffer df × Result DataBlock
  fetch_miss db id =
      if length db.next_victims == db.size
      then fill_evicted id (evict_frame db)
      else fill_free db id (free_loop db.size 0 db.frames none)

  unfoldable pub fetch_hit : DataBuffer df → ℕ → ℕ → DataBuffer df × Result DataBlock
  fetch_hit db id k =
      let db' = update_frame db k (record (db.frames k) { referenced = true }) in
      (db', ok (block_of db' id k))

  unfoldable pub fetch_block : DataBuffer df → ℕ → DataBuffer df × Result DataBlock
  fetch_block db id = elim (db.id_to_frame id) [
    | some k ↦ fetch_hit db id k
    | none ↦ fetch_miss db id
  ]

  -- A block that is not in the buffer panics.
  unfoldable pub mark_as_dirty : DataBuffer df → ℕ → DataBuffer df × Result (Unit {0})
  mark_as_dirty db id = elim (db.id_to_frame id) [
    | none ↦ (db, panic)
    | some k ↦
        (update_frame db k (record (db.frames k) { is_dirty = true; referenced = true }), ok tt)
  ]

  -- A write through the `Data` of a fetched block goes to its frame.
  unfoldable pub store_block : DataBuffer df → ℕ → Mem → DataBuffer df
  store_block db id m = elim (db.id_to_frame id) [
    | none ↦ db
    | some k ↦ update_frame db k (record (db.frames k) { contents = m })
  ]

  -- The body of the loop of `Sync`.
  unfoldable pub flushed : DataBuffer df → ℕ → Result (Unit {0}) → DataBuffer df × Result (Unit {0})
  flushed db k (ok _) = (update_frame db k (record (db.frames k) { is_dirty = false }), ok tt)
  flushed db k (err e) = (db, err e)
  flushed db k panic = (db, panic)
  flushed db k out_of_fuel = (db, out_of_fuel)

  unfoldable pub flush : DataBuffer df → ℕ → ℕ → DataBuffer df × Result (Unit {0})
  flush db id k =
      if (db.frames k).is_dirty
      then (let (file', r) = df.write_block db.file id (db.frames k).contents in
          flushed (record db { file = file' }) k r)
      else (db, ok tt)

  abbrev pub and_then :
      DataBuffer df × Result (Unit {0})
      → (DataBuffer df → DataBuffer df × Result (Unit {0}))
      → DataBuffer df × Result (Unit {0})
  and_then (db, ok _) next = next db
  and_then (db, err e) next = (db, err e)
  and_then (db, panic) next = (db, panic)
  and_then (db, out_of_fuel) next = (db, out_of_fuel)

  -- `for dataBlockID, frame := range idToFrame`: Go visits the keys in an order of its choice,
  -- which is the argument.
  unfoldable pub sync : DataBuffer df → List ℕ → DataBuffer df × Result (Unit {0})
  sync db [] = (db, ok tt)
  sync db (id ∷ order) = elim (db.id_to_frame id) [
    | none ↦ (db, panic)
    | some k ↦ and_then (flush db id k) (λ db'. sync db' order)
  ]

unfoldable pub new_data_buffer : (df : DataFile) → df.File → ℕ → DataBuffer df
new_data_buffer df file size = record {
  file = file;
  frames = λ _. blank;
  id_to_frame = λ _. none;
  next_victims = [];
  size = size;
}
