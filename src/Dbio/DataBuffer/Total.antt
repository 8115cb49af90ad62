-- ===== src/Dbio/DataBuffer/Total.antt =====
-- `FetchBlock` over a file that serves its blocks: the call succeeds.
use pucrs_metadata_db.Base.{
  ℕ, ◌<◌, ◌≡◌, Bool, true, false, ◌==◌, Bool-cases, ==_iff, none, some, length, arith, Result, ok,
  err, panic, out_of_fuel, Option-cases, inl, inr,
}
use pucrs_metadata_db.Dbio.Bytes.{Mem}
use pucrs_metadata_db.Dbio.DataFile.{DataFile, read_block_func, write_block_func, fake_data_file}
use pucrs_metadata_db.Dbio.DataBuffer.{
  Frames, Victim, DataBuffer, with_frames, release, after_write, write_back, evict_victim,
  evict_frame, filled, fill_with, fill, fill_evicted, fill_free, fetch_miss, fetch_hit, fetch_block,
}
use pucrs_metadata_db.Dbio.DataBuffer.Eviction.{Finds, victim_loop-ends}
use pucrs_metadata_db.Dbio.DataBuffer.Valid.{IsValid, free_loop_finds}

-- A file that can read and write its first `blocks` blocks, as long as it is only written to there.
-- `Good` is what the file needs for that.
pub record IsReliable (df : DataFile) (blocks : ℕ) (Good : df.File → Type 0) : Type 0 where
  pub reads :
      (f : df.File) (id : ℕ) → Good f → id < blocks → (m : Mem) × (df.read_block f id ≡ ok m)
  pub writes :
      (f : df.File) (id : ℕ) (d : Mem)
      → Good f
      → id < blocks
      → ((df.write_block f id d).1 ≡ ok tt) × Good (df.write_block f id d).0

-- The file of the tests serves its blocks.
pub fake-IsReliable : (n : ℕ) → IsReliable fake_data_file n (λ f. f.0.count ≡ n)
unfolding read_block_func write_block_func
fake-IsReliable n = record {
  reads = λ f id good h. (f.0.blocks id, ground (arith, f.1, good, h));
  writes = λ f id d good h. (ground (arith, good, h), ground (arith, good, h));
}

module _ {df : DataFile} {blocks : ℕ} {Good : df.File → Type 0}
    (reliable : IsReliable df blocks Good) where
  -- The file is good, and the buffer holds blocks of it only.
  pub record IsSafe (db : DataBuffer df) : Type 0 where
    pub good : Good db.file
    pub inside : (i k : ℕ) → db.id_to_frame i ≡ some k → i < blocks

  -- The call succeeded, and the buffer is safe.
  abbrev pub Succeeds : {A : Type 0} → DataBuffer df × Result A → Type 0
  Succeeds (db, ok a) = IsSafe db
  Succeeds (db, _) = ⊥

  release-IsSafe : (db : DataBuffer df) (w : Victim) → IsSafe db → IsSafe (release db w)
  unfolding release
  release-IsSafe db w s = record { good = s.good; inside = λ i k h. ground (arith, s.inside i k) }

  filled-IsSafe :
      (db : DataBuffer df) (id k : ℕ) (e : Bool) (m : Mem)
      → IsSafe db
      → id < blocks
      → IsSafe (filled db id k e m)
  unfolding filled
  filled-IsSafe db id k e m s h = record {
    good = s.good;
    inside = λ i j q. ground (arith, s.inside i j);
  }

  write_back-Succeeds :
      (db : DataBuffer df) (w : Victim) → IsSafe db → w.id < blocks → Succeeds (write_back db w)
  unfolding write_back after_write
  write_back-Succeeds db w s h = elim (Bool-cases ((db.frames w.frame).is_dirty)) [
    | inr clean ↦ rw clean (release-IsSafe db w s)
    | inl dirty ↦
        let (done, good) = reliable.writes db.file w.id (db.frames w.frame).contents s.good h in
        rw (dirty, done)
          (release-IsSafe
            (record db { file = (df.write_block db.file w.id (db.frames w.frame).contents).0 }) w
            (record { good = good; inside = s.inside }))
  ]

  evict_victim-Succeeds :
      (db : DataBuffer df) (r : Frames × Result Victim)
      → IsSafe db
      → Finds db.next_victims db.id_to_frame db.size db.frames r
      → Succeeds (evict_victim db r)
  unfolding evict_victim
  evict_victim-Succeeds db (fs, ok w) s (at, here, same) =
      write_back-Succeeds (with_frames db fs) w (record { good = s.good; inside = s.inside })
        (s.inside w.id w.frame here)
  evict_victim-Succeeds db (fs, err e) s h = elim h [ ]
  evict_victim-Succeeds db (fs, panic) s h = elim h [ ]
  evict_victim-Succeeds db (fs, out_of_fuel) s h = elim h [ ]

  fill-Succeeds :
      (db : DataBuffer df) (id k : ℕ) (e : Bool)
      → IsSafe db
      → id < blocks
      → Succeeds (fill db id k e)
  unfolding fill fill_with
  fill-Succeeds db id k e s h =
      let (m, q) = reliable.reads db.file id s.good h in rw q (filled-IsSafe db id k e m s h)

  fill_evicted-Succeeds :
      (id : ℕ) (r : DataBuffer df × Result ℕ)
      → Succeeds r
      → id < blocks
      → Succeeds (fill_evicted id r)
  unfolding fill_evicted
  fill_evicted-Succeeds id (db, ok k) s h = fill-Succeeds db id k true s h
  fill_evicted-Succeeds id (db, err e) s h = elim s [ ]
  fill_evicted-Succeeds id (db, panic) s h = elim s [ ]
  fill_evicted-Succeeds id (db, out_of_fuel) s h = elim s [ ]

  -- On a valid and safe buffer over a reliable file, fetching a block of the file always succeeds,
  -- and leaves the buffer safe.
  pub fetch_block-Succeeds :
      (db : DataBuffer df) (id : ℕ)
      → IsValid db
      → IsSafe db
      → id < blocks
      → Succeeds (fetch_block db id)
  unfolding fetch_block fetch_hit fetch_miss fill_free evict_frame
  fetch_block-Succeeds db id v s h = elim (Option-cases (db.id_to_frame id)) [
    | inr (k, here) ↦ rw (here, fetch_block) (record { good = s.good; inside = s.inside })
    | inl absent ↦
        rw (absent, fetch_block)
          (elim (Bool-cases (length db.next_victims == db.size)) [
            | inl full ↦ rw full (
                fill_evicted-Succeeds id _
                  (evict_victim-Succeeds db _ s (
                    victim_loop-ends db.next_victims db.id_to_frame db.size v.victims_mapped
                      ((==_iff _ _).0 full) v.positive db.frames))
                  h)
            | inr room ↦
                let less : length db.next_victims < db.size = ground (arith, v.fits) in
                let (k, found, _, small, free) =
                  free_loop_finds db.size 0 db.frames none (omega (arith, v.counted)) in
                rw (room, found) (fill-Succeeds db id k false s h)
          ])
  ]
