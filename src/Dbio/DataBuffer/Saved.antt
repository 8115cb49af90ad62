-- ===== src/Dbio/DataBuffer/Saved.antt =====
-- `Sync` of src/simplejsondb/dbio/data_buffer.go over a file that serves its blocks.
use pucrs_metadata_db.Base.{
  ℕ, suc, ◌≡◌, refl, ap, ◌∙◌, Bool-cases, inl, inr, Option, some, Option-cases, List, [], ◌∷◌,
  get_elem?, Result, ok, err, panic, out_of_fuel,
}
use pucrs_metadata_db.Dbio.DataFile.{DataFile}
use pucrs_metadata_db.Dbio.DataBuffer.{DataBuffer, flushed, flush, and_then, sync}
use pucrs_metadata_db.Dbio.DataBuffer.Total.{IsReliable, IsSafe}

module _ {df : DataFile} where
  -- Which block is in which frame, after a step.
  abbrev map_after : {A : Type 0} → DataBuffer df × Result A → ℕ → Option ℕ
  map_after r = r.0.id_to_frame

  flushed_map :
      (db : DataBuffer df) (k : ℕ) (r : Result (Unit {0}))
      → map_after (flushed db k r) ≡ db.id_to_frame
  unfolding flushed
  flushed_map db k (ok x) = refl
  flushed_map db k (err e) = refl
  flushed_map db k panic = refl
  flushed_map db k out_of_fuel = refl

  flush_map : (db : DataBuffer df) (id k : ℕ) → map_after (flush db id k) ≡ db.id_to_frame
  unfolding flush
  flush_map db id k = elim (Bool-cases ((db.frames k).is_dirty)) [
    | inl dirty ↦
        let w = df.write_block db.file id (db.frames k).contents in
        rw dirty (flushed_map (record db { file = w.0 }) k w.1)
    | inr clean ↦ rw clean refl
  ]

  and_then_map :
      (m : ℕ → Option ℕ) (r : DataBuffer df × Result (Unit {0}))
      (next : DataBuffer df → DataBuffer df × Result (Unit {0}))
      → map_after r ≡ m
      → ((db : DataBuffer df) → db.id_to_frame ≡ m → map_after (next db) ≡ m)
      → map_after (and_then r next) ≡ m
  and_then_map m (db, ok x) next h then = then db h
  and_then_map m (db, err e) next h then = h
  and_then_map m (db, panic) next h then = h
  and_then_map m (db, out_of_fuel) next h then = h

  -- No block moves to another frame.
  pub sync_map : (order : List ℕ) (db : DataBuffer df) → map_after (sync db order) ≡ db.id_to_frame
  unfolding sync
  sync_map [] db = refl
  sync_map (id ∷ order) db = elim (Option-cases (db.id_to_frame id)) [
    | inl absent ↦ rw (absent, sync) refl
    | inr (k, here) ↦
        rw (here, sync)
          (and_then_map db.id_to_frame (flush db id k) (λ db'. sync db' order) (flush_map db id k)
            (λ db' same. sync_map order db' ∙ same))
  ]

module _ {df : DataFile} {blocks : ℕ} {Good : df.File → Type 0}
    (reliable : IsReliable df blocks Good) where
  flush-Succeeds :
      (db : DataBuffer df) (id k : ℕ)
      → IsSafe reliable db
      → db.id_to_frame id ≡ some k
      → (db' : DataBuffer df) × (flush db id k ≡ (db', ok tt))
        × IsSafe reliable db'
        × (db'.id_to_frame ≡ db.id_to_frame)
  unfolding flush flushed
  flush-Succeeds db id k s here = elim (Bool-cases ((db.frames k).is_dirty)) [
    | inr clean ↦ (db, rw clean refl, s, refl)
    | inl dirty ↦
        let (done, good) =
          reliable.writes db.file id (db.frames k).contents s.good (s.inside id k here) in
        (
          (flushed (record db { file = (df.write_block db.file id (db.frames k).contents).0 }) k
              (ok tt)).0,
          rw (dirty, done) refl,
          record { good = good; inside = s.inside },
          refl,
        )
  ]

  -- `Sync` succeeds if the blocks that it visits are in the buffer, and the file can be used on.
  pub sync-Succeeds :
      (order : List ℕ) (db : DataBuffer df)
      → IsSafe reliable db
      → ((q i : ℕ) → get_elem? order q ≡ some i → (k : ℕ) × (db.id_to_frame i ≡ some k))
      → (db' : DataBuffer df) × (sync db order ≡ (db', ok tt)) × IsSafe reliable db'
  unfolding sync
  sync-Succeeds [] db s held = (db, refl, s)
  sync-Succeeds (id ∷ order) db s held =
      let (k, here) = held 0 id refl in
      let (db₁, e, s₁, same) = flush-Succeeds db id k s here in
      let (db₂, e', s₂) =
        sync-Succeeds order db₁ s₁
          (λ q i x. let (j, there) = held (suc q) i x in (j, ap (λ m. m i) same ∙ there)) in
      (db₂, rw (here, sync) (ap (λ r. and_then r (λ db'. sync db' order)) e ∙ e'), s₂)
