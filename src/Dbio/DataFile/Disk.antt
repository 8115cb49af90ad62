-- ===== src/Dbio/DataFile/Disk.antt =====
-- `datafile` of src/simplejsondb/dbio/data_file.go: a file on disk, through package os.
use pucrs_metadata_db.Base.{
  ℕ, ◌*◌, Bool, if◌then◌else◌, List, ◌++◌, take, drop, Result, ok, err, panic, out_of_fuel,
}
use pucrs_metadata_db.Dbio.DataFile.{datafile_size, datablock_size}

-- What is used of package os: the calls, over the state of the world. `read` gives the number of
-- bytes that it read, and the buffer that it is handed as it leaves it.
pub record Os : Type 1 where
  pub World : Type 0
  pub Name : Type 0
  pub File : Type 0
  pub exists : Name → World → Bool
  pub open_file : Name → World → World × Result File
  pub create : Name → World → World × Result File
  pub truncate : File → ℕ → World → World × Result (Unit {0})
  pub seek : File → ℕ → World → World × Result (Unit {0})
  pub read : File → List ℕ → World → World × Result (ℕ × List ℕ)
  pub write : File → List ℕ → World → World × Result (Unit {0})
  pub sync : File → World → World × Result (Unit {0})
  pub close : File → World → World × Result (Unit {0})

module _ (os : Os) where
  abbrev pub Io : Type 0 → Type 0
  Io A = os.World → os.World × Result A

  abbrev pub pure : {A : Type 0} → A → Io A
  pure x w = (w, ok x)

  -- What comes after an error is not run.
  abbrev pub and_then : {A B : Type 0} → (A → Io B) → os.World × Result A → os.World × Result B
  and_then next (w, ok x) = next x w
  and_then next (w, err e) = (w, err e)
  and_then next (w, panic) = (w, panic)
  and_then next (w, out_of_fuel) = (w, out_of_fuel)

  infixl 5 ◌>>=◌ ◌>>◌
  abbrev pub ◌>>=◌ : {A B : Type 0} → Io A → (A → Io B) → Io B
  (first >>= next) w = and_then next (first w)

  abbrev pub ◌>>◌ : {B : Type 0} → Io (Unit {0}) → Io B → Io B
  first >> second = first >>= λ _. second

  -- A file that is there is opened again, another is created and filled up to its size.
  unfoldable pub open_datafile : os.Name → Io os.File
  open_datafile filename w =
      if os.exists filename w
      then os.open_file filename w
      else (do file ← os.create filename; os.truncate file datafile_size; pure file) w

  unfoldable pub new_datafile : os.Name → Io os.File
  new_datafile filename = open_datafile filename

  unfoldable pub seek : os.File → ℕ → Io (Unit {0})
  seek file block_id = os.seek file (block_id * datablock_size)

  -- `io.LimitedReader`: the read gets at most the first `datablock_size` bytes of the slice.
  unfoldable pub limited_read : os.File → List ℕ → Io (ℕ × List ℕ)
  limited_read file bytes = do
    (n, front) ← os.read file (take datablock_size bytes)
    pure (n, front ++ drop datablock_size bytes)

  -- The number of bytes that were read is dropped.

  unfoldable pub read_block : os.File → ℕ → List ℕ → Io (List ℕ)
  read_block file id bytes = do seek file id; (n, read) ← limited_read file bytes; pure read

  unfoldable pub write_block : os.File → ℕ → List ℕ → Io (Unit {0})
  write_block file id bytes = do seek file id; os.write file bytes; os.sync file

  unfoldable pub close : os.File → Io (Unit {0})
  close file = os.close file
