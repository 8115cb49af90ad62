-- ===== src/Dbio/DataBuffer/Tests.antt =====
-- A buffer of one frame over a file of eight blocks: a block is changed, evicted and read again.
use pucrs_metadata_db.Base.{
  ◌<◌, ℕ, ◌≡◌, refl, ◌==◌, if◌then◌else◌, Option, none, some, [], ◌∷◌, get_elem?, arith, Result, ok,
  err, invalid_block,
}
use pucrs_metadata_db.Dbio.Bytes.{Mem}
use pucrs_metadata_db.Dbio.DataBlock.{DataBlock, mem}
use pucrs_metadata_db.Dbio.DataFile.{
  new_fake_data_file, read_block_func, write_block_func, FewBlocks, fake_data_file,
}
use pucrs_metadata_db.Dbio.DataBuffer.{
  victim_loop, free_loop, DataBuffer, release, after_write, write_back, evict_victim, evict_frame,
  filled, fill_with, fill, fill_evicted, fill_free, fetch_miss, fetch_hit, fetch_block,
  mark_as_dirty, store_block, flushed, flush, sync, new_data_buffer,
}
use pucrs_metadata_db.Dbio.DataBuffer.Valid.{view, IsValid}
use pucrs_metadata_db.Dbio.DataBuffer.Fetch.{Fetched, fetch_block-view}
use pucrs_metadata_db.Dbio.DataBuffer.Total.{
  fake-IsReliable, IsSafe, Succeeds, fetch_block-Succeeds,
}
use pucrs_metadata_db.Dbio.DataBuffer.Change.{change, change-view, new_data_buffer-IsValid}
use pucrs_metadata_db.Dbio.DataBuffer.Sync.{sync_saves}

program : Unit {0}
unfolding new_fake_data_file read_block_func write_block_func victim_loop free_loop release
    after_write write_back evict_victim evict_frame filled fill_with fill fill_evicted fill_free
    fetch_miss fetch_hit fetch_block mark_as_dirty store_block flushed flush sync new_data_buffer
program = tt

abbrev Buffer : Type 0
Buffer = DataBuffer fake_data_file

few : (new_fake_data_file 8).count < 65536
unfolding new_fake_data_file
few = omega arith

abbrev new_file : FewBlocks
new_file = (new_fake_data_file 8, few)

abbrev start : Buffer
start = new_data_buffer fake_data_file new_file 1

abbrev sevens : Mem
sevens = λ _. 7

-- block 2 is in the only frame
abbrev holds_two : Buffer
holds_two = (fetch_block start 2).0

abbrev two_changed : Buffer
two_changed = (change holds_two 2 sevens).0

-- block 2 is written back and block 5 takes its frame
abbrev holds_five : Buffer
holds_five = (fetch_block two_changed 5).0

first_byte : Result DataBlock → Option ℕ
first_byte (ok b) = some (mem b 0)
first_byte _ = none

evicts_and_reads_back :
    (first_byte (fetch_block two_changed 5).1 ≡ some 0)
    × (first_byte (fetch_block holds_five 2).1 ≡ some 7)
    × (holds_five.next_victims ≡ 5 ∷ [])
unfolding program first_byte
evicts_and_reads_back = (refl, refl, refl)

missing_block : (fetch_block start 9).1 ≡ err invalid_block
unfolding program
missing_block = refl

-- a second buffer over one file sees the change after `Sync`
sync_shares : read_block_func (sync two_changed (2 ∷ [])).0.file.0 2 ≡ ok sevens
unfolding program
sync_shares = refl

start-IsValid : IsValid start
start-IsValid = (new_data_buffer-IsValid {df = fake_data_file} new_file 1 (omega arith)).0

holds_two-IsValid : IsValid holds_two
holds_two-IsValid = (fetch_block-view {db = start} 2 start-IsValid).0

two_in_frame : holds_two.id_to_frame 2 ≡ some 0
unfolding program
two_in_frame = refl

change-view_example :
    let (db', r) = change holds_two 2 sevens in
    (r ≡ ok tt)
    × IsValid db'
    × ((i : ℕ) → view db' i ≡ (if i == 2 then ok sevens else view holds_two i))
change-view_example = change-view holds_two-IsValid 2 0 sevens two_in_frame

two_changed-IsValid : IsValid two_changed
two_changed-IsValid = change-view_example.1

fetch_block-view_example : Fetched two_changed 5 (fetch_block two_changed 5)
fetch_block-view_example = fetch_block-view {db = two_changed} 5 two_changed-IsValid

only_two :
    (i k : ℕ) → two_changed.id_to_frame i ≡ some k → (q : ℕ) × (get_elem? (2 ∷ []) q ≡ some i)
unfolding program
only_two i k e = (0, ground arith)

sync_saves_example : read_block_func (sync two_changed (2 ∷ [])).0.file.0 2 ≡ view two_changed 2
unfolding program
sync_saves_example =
    sync_saves (2 ∷ []) two_changed-IsValid only_two (sync two_changed (2 ∷ [])).0 refl 2

start-IsSafe : IsSafe (fake-IsReliable 8) start
unfolding program
start-IsSafe = record { good = refl; inside = λ i k e. cc }

fetch_block-Succeeds_example : Succeeds (fake-IsReliable 8) (fetch_block start 5)
fetch_block-Succeeds_example =
    fetch_block-Succeeds (fake-IsReliable 8) start 5
      (new_data_buffer-IsValid new_file 1 (omega arith)).0 start-IsSafe (omega arith)
