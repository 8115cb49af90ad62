-- ===== src/Dbio/DataBuffer/Fetch.antt =====
-- `FetchBlock` returns the block that a client sees and changes no block.
mod Steps
use pucrs_metadata_db.Base.{
  ℕ, ◌+◌, ◌≤◌, ◌<◌, ◌≡◌, refl, sym, ap, ◌∙◌, ◌≢◌, Bool, true, false, ◌==◌, if◌then◌else◌,
  Bool-cases, ==_iff, Option, none, some, length, get_elem?, arith, Result, ok, err, panic,
  out_of_fuel, Option-cases, inl, inr, length-without, get_elem?-lt_length,
}
use pucrs_metadata_db.Dbio.Bytes.{Mem}
use pucrs_metadata_db.Dbio.DataBlock.{DataBlock, mem, size}
use pucrs_metadata_db.Dbio.DataFile.{DataFile, datablock_size}
use pucrs_metadata_db.Dbio.DataBuffer.{
  Frame, Frames, set_frame, Victim, DataBuffer, with_frames, update_frame, victim_loop, release,
  after_write, write_back, evict_victim, evict_frame, filled, fill_with, fill, fill_evicted,
  fill_free, free_loop, fetch_miss, fetch_hit, fetch_block,
}
use pucrs_metadata_db.Dbio.DataBuffer.Eviction.{Finds, SameButReferenced, victim_loop-ends}
use pucrs_metadata_db.Dbio.DataBuffer.Valid.{
  view, view_mapped, view_unmapped, IsValid, SameView, with_frames-IsValid, flags-IsValid,
  written-IsValid, free_loop_finds,
}
use Steps.{release-IsValid, filled-view, filled-IsValid}

module _ {df : DataFile} where
  -- A frame was freed, no block was brought in, and every block looks as before.
  abbrev Evicted : DataBuffer df → DataBuffer df × Result ℕ → Type 0
  Evicted db (db', ok k) =
      IsValid db'
      × SameView db' db
      × (k < db'.size)
      × ((db'.frames k).in_use ≡ false)
      × (length db'.next_victims < db'.size)
      × ((i : ℕ) → db.id_to_frame i ≡ none → db'.id_to_frame i ≡ none)
  Evicted db (db', _) = IsValid db' × SameView db' db

  Evicted-trans :
      (db db' : DataBuffer df) (r : DataBuffer df × Result ℕ)
      → SameView db' db
      → ((i : ℕ) → db.id_to_frame i ≡ none → db'.id_to_frame i ≡ none)
      → Evicted db' r
      → Evicted db r
  Evicted-trans db db' (d, ok k) s n (v, t, a, b, c, e) =
      (v, λ i. t i ∙ s i, a, b, c, λ i h. e i (n i h))
  Evicted-trans db db' (d, err e) s n (v, t) = (v, λ i. t i ∙ s i)
  Evicted-trans db db' (d, panic) s n (v, t) = (v, λ i. t i ∙ s i)
  Evicted-trans db db' (d, out_of_fuel) s n (v, t) = (v, λ i. t i ∙ s i)

  release-Evicted :
      {db : DataBuffer df} (v : IsValid db) (w : Victim)
      → get_elem? db.next_victims w.position ≡ some w.id
      → db.id_to_frame w.id ≡ some w.frame
      → df.read_block db.file w.id ≡ ok (db.frames w.frame).contents
      → Evicted db (release db w, ok w.frame)
  unfolding release
  release-Evicted {db} v w at here saved =
      let (v', s) = release-IsValid v w at here saved in
      (
        v',
        s,
        v.frame_small w.id w.frame here,
        ground arith,
        omega (
          arith,
          v.fits,
          length-without db.next_victims w.position
              (get_elem?-lt_length db.next_victims w.position w.id at),
        ),
        λ i h. ground arith,
      )

  after_write-Evicted :
      {db : DataBuffer df} (v : IsValid db) (w : Victim) (r : Result (Unit {0}))
      → get_elem? db.next_victims w.position ≡ some w.id
      → db.id_to_frame w.id ≡ some w.frame
      → (r ≡ ok tt → df.read_block db.file w.id ≡ ok (db.frames w.frame).contents)
      → Evicted db (after_write w db r)
  unfolding after_write
  after_write-Evicted v w (ok tt) at here saved = release-Evicted v w at here (saved refl)
  after_write-Evicted v w (err e) at here saved = (v, λ i. refl)
  after_write-Evicted v w panic at here saved = (v, λ i. refl)
  after_write-Evicted v w out_of_fuel at here saved = (v, λ i. refl)

  module _ {db : DataBuffer df} (v : IsValid db) where
    write_back-Evicted :
        (w : Victim)
        → get_elem? db.next_victims w.position ≡ some w.id
        → db.id_to_frame w.id ≡ some w.frame
        → Evicted db (write_back db w)
    unfolding write_back
    write_back-Evicted w at here = elim (Bool-cases ((db.frames w.frame).is_dirty)) [
      | inr clean ↦ rw clean (release-Evicted v w at here (v.clean w.id w.frame here clean))
      | inl dirty ↦
          let d = (db.frames w.frame).contents in
          let (v', s) = written-IsValid v w.id w.frame here dirty in
          rw dirty (
            Evicted-trans db (record db { file = (df.write_block db.file w.id d).0 }) _ s (λ i h. h)
              (after_write-Evicted v' w (df.write_block db.file w.id d).1 at here
                (df.read_written db.file w.id d)))
    ]

  module _ {db : DataBuffer df} (v : IsValid db) where
    evict_victim-Evicted :
        (r : Frames × Result Victim)
        → Finds db.next_victims db.id_to_frame db.size db.frames r
        → Evicted db (evict_victim db r)
    unfolding evict_victim
    evict_victim-Evicted (fs, ok w) (at, here, same) =
        let (v', s) = with_frames-IsValid v fs same in
        Evicted-trans db (with_frames db fs) _ s (λ i h. h) (write_back-Evicted v' w at here)
    evict_victim-Evicted (fs, err e) h = elim h [ ]
    evict_victim-Evicted (fs, panic) h = elim h [ ]
    evict_victim-Evicted (fs, out_of_fuel) h = elim h [ ]

    evict_frame-Evicted : length db.next_victims ≡ db.size → Evicted db (evict_frame db)
    unfolding evict_frame
    evict_frame-Evicted full = evict_victim-Evicted _ (
        victim_loop-ends db.next_victims db.id_to_frame db.size v.victims_mapped full v.positive
          db.frames)

  -- What `FetchBlock` hands over: the block that the client sees, now in the buffer.
  abbrev pub Gives : DataBuffer df → ℕ → DataBuffer df → Result DataBlock → Type 0
  Gives db id db' (ok b) =
      (b.id ≡ id)
      × (size b ≡ datablock_size)
      × (view db id ≡ ok (mem b))
      × ((k : ℕ) × (db'.id_to_frame id ≡ some k))
  Gives db id db' _ = Unit {0}

  abbrev pub Fetched : DataBuffer df → ℕ → DataBuffer df × Result DataBlock → Type 0
  Fetched db id (db', r) = IsValid db' × SameView db' db × Gives db id db' r

  Fetched-trans :
      (db db' : DataBuffer df) (id : ℕ) (r : DataBuffer df × Result DataBlock)
      → SameView db' db
      → Fetched db' id r
      → Fetched db id r
  Fetched-trans db db' id (d, ok b) s (v, t, (x, y, z, w)) =
      (v, λ i. t i ∙ s i, (x, y, sym (s id) ∙ z, w))
  Fetched-trans db db' id (d, err e) s (v, t, g) = (v, λ i. t i ∙ s i, tt)
  Fetched-trans db db' id (d, panic) s (v, t, g) = (v, λ i. t i ∙ s i, tt)
  Fetched-trans db db' id (d, out_of_fuel) s (v, t, g) = (v, λ i. t i ∙ s i, tt)

  module _ {db : DataBuffer df} (v : IsValid db) (id k : ℕ) (absent : db.id_to_frame id ≡ none)
      (small : k < db.size) (free : (db.frames k).in_use ≡ false)
      (room : length db.next_victims < db.size) (e : Bool) where
    fill_with-Fetched :
        (r : Result Mem) → df.read_block db.file id ≡ r → Fetched db id (fill_with db id k e r)
    unfolding fill_with filled
    fill_with-Fetched (ok m) q = (
      filled-IsValid v id k absent small free room e m q,
      filled-view v id k absent small free room e m q,
      (refl, refl, view_unmapped db id absent ∙ q ∙ filled_contents, (k, filled_at)),
    )
      where
        filled_at : (filled db id k e m).id_to_frame id ≡ some k
        filled_at = ground arith

        filled_contents : ok m ≡ ok ((filled db id k e m).frames k).contents
        filled_contents = ground arith
    fill_with-Fetched (err e) q = (v, λ i. refl, tt)
    fill_with-Fetched panic q = (v, λ i. refl, tt)
    fill_with-Fetched out_of_fuel q = (v, λ i. refl, tt)

    fill-Fetched : Fetched db id (fill db id k e)
    unfolding fill
    fill-Fetched = fill_with-Fetched (df.read_block db.file id) refl

  fill_evicted-Fetched :
      (db : DataBuffer df) (id : ℕ) (r : DataBuffer df × Result ℕ)
      → db.id_to_frame id ≡ none
      → Evicted db r
      → Fetched db id (fill_evicted id r)
  unfolding fill_evicted
  fill_evicted-Fetched db id (db', ok k) absent (v, s, small, free, room, new) =
      Fetched-trans db db' id _ s (fill-Fetched v id k (new id absent) small free room true)
  fill_evicted-Fetched db id (db', err e) absent (v, s) = (v, s, tt)
  fill_evicted-Fetched db id (db', panic) absent (v, s) = (v, s, tt)
  fill_evicted-Fetched db id (db', out_of_fuel) absent (v, s) = (v, s, tt)

  module _ {db : DataBuffer df} (id : ℕ) (v : IsValid db) where
    fetch_miss-Fetched : db.id_to_frame id ≡ none → Fetched db id (fetch_miss db id)
    unfolding fetch_miss fill_free
    fetch_miss-Fetched absent = elim (Bool-cases (length db.next_victims == db.size)) [
      | inl full ↦
          rw full
            (fill_evicted-Fetched db id _ absent (evict_frame-Evicted v ((==_iff _ _).0 full)))
      | inr room ↦
          let less : length db.next_victims < db.size = ground (arith, v.fits) in
          let (k, found, _, small, free) =
            free_loop_finds db.size 0 db.frames none (omega (arith, v.counted)) in
          rw (room, found) (fill-Fetched v id k absent (omega arith) free less false)
    ]

    fetch_hit-Fetched : (k : ℕ) → db.id_to_frame id ≡ some k → Fetched db id (fetch_hit db id k)
    unfolding fetch_hit
    fetch_hit-Fetched k here =
        let f = record (db.frames k) { referenced = true } in
        let (v', s) =
          flags-IsValid v id k f here (v.frame_in_use id k here) refl (v.clean id k here) in
        (v', s, (refl, refl, sym (s id) ∙ view_mapped (update_frame db k f) id k here, (k, here)))

    -- From a valid buffer, whether `FetchBlock` hits, fills a free frame or evicts, and also if the
    -- file fails on the way: the buffer stays valid, no block looks different to a client, and a
    -- block that it returns has the id asked for, 4096 bytes, and the contents that the client saw
    -- under that id.
    pub fetch_block-view : Fetched db id (fetch_block db id)
    unfolding fetch_block
    fetch_block-view = elim (Option-cases (db.id_to_frame id)) [
      | inl absent ↦ rw (absent, fetch_block) (fetch_miss-Fetched absent)
      | inr (k, here) ↦ rw (here, fetch_block) (fetch_hit-Fetched k here)
    ]
