-- ===== src/Dbio/DataBuffer/Sync.antt =====
-- `Sync` writes what the buffer has and the file has not.
use mathlib.Core.Path.{subst}
use native.Mathlib.Decide.{ℕ_discrete}
use mathlib.Core.Option.{some-injective}
use pucrs_metadata_db.Base.{
  zero, ℕ, suc, ◌≡◌, refl, sym, ◌∙◌, true, false, Bool-cases, some, List, [], ◌∷◌, get_elem?,
  Result, ok, err, panic, out_of_fuel, Option-cases, inl, inr, ◌⊎◌,
}
use pucrs_metadata_db.Dbio.DataFile.{DataFile}
use pucrs_metadata_db.Dbio.DataBuffer.{DataBuffer, flushed, flush, and_then, sync}
use pucrs_metadata_db.Dbio.DataBuffer.Valid.{
  view, view_mapped, view_unmapped, IsValid, SameView, flags-IsValid, written-IsValid,
}

module _ {df : DataFile} where
  -- The buffer is valid and shows the same blocks; if all went well, the file has each block of
  -- `order`, and what was saved stays so.
  abbrev Synced : DataBuffer df → List ℕ → DataBuffer df × Result (Unit {0}) → Type 0
  Synced db order (db', ok _) =
      IsValid db'
      × SameView db' db
      × ((i : ℕ)
          → (df.read_block db.file i ≡ view db i) ⊎ ((q : ℕ) × (get_elem? order q ≡ some i))
          → df.read_block db'.file i ≡ view db i)
  Synced db order (db', _) = IsValid db' × SameView db' db

  -- A step that keeps the view and saves `id` goes before the rest of the loop.
  Synced-step :
      (db db' : DataBuffer df) (id : ℕ) (order : List ℕ) (r : DataBuffer df × Result (Unit {0}))
      → SameView db' db
      → df.read_block db'.file id ≡ view db' id
      → ((i : ℕ) → df.read_block db.file i ≡ view db i → df.read_block db'.file i ≡ view db' i)
      → Synced db' order r
      → Synced db (id ∷ order) r
  Synced-step db db' id order (d, ok u) s saved keep (v, t, f) =
      (v, λ i. t i ∙ s i, λ i h. f i (covered i h) ∙ s i)
    where
      covered :
          (i : ℕ)
          → (df.read_block db.file i ≡ view db i) ⊎ ((q : ℕ) × (get_elem? (id ∷ order) q ≡ some i))
          → (df.read_block db'.file i ≡ view db' i) ⊎ ((q : ℕ) × (get_elem? order q ≡ some i))
      covered i (inl old) = inl (keep i old)
      covered i (inr (zero, e)) =
          inl (subst (λ j. df.read_block db'.file j ≡ view db' j) (some-injective id i e) saved)
      covered i (inr (suc q, e)) = inr (q, e)
  Synced-step db db' id order (d, err e) s saved keep (v, t) = (v, λ i. t i ∙ s i)
  Synced-step db db' id order (d, panic) s saved keep (v, t) = (v, λ i. t i ∙ s i)
  Synced-step db db' id order (d, out_of_fuel) s saved keep (v, t) = (v, λ i. t i ∙ s i)

  Flushed : DataBuffer df → ℕ → DataBuffer df × Result (Unit {0}) → Type 0
  Flushed db id (db', ok _) =
      IsValid db'
      × SameView db' db
      × (df.read_block db'.file id ≡ view db' id)
      × ((i : ℕ) → df.read_block db.file i ≡ view db i → df.read_block db'.file i ≡ view db' i)
  Flushed db id (db', _) = IsValid db' × SameView db' db

  flushed-Flushed :
      {db : DataBuffer df} (v : IsValid db) (id k : ℕ) (r : Result (Unit {0}))
      → db.id_to_frame id ≡ some k
      → (r ≡ ok tt → df.read_block db.file id ≡ ok (db.frames k).contents)
      → Flushed db id (flushed db k r)
  unfolding Flushed flushed
  flushed-Flushed {db} v id k (ok u) here saved =
      let f = record (db.frames k) { is_dirty = false } in
      let (v', s) = flags-IsValid v id k f here (v.frame_in_use id k here) refl (λ _. saved refl) in
      (v', s, saved refl ∙ sym (view_mapped db id k here) ∙ sym (s id), λ i h. h ∙ sym (s i))
  flushed-Flushed v id k (err e) here saved = (v, λ i. refl)
  flushed-Flushed v id k panic here saved = (v, λ i. refl)
  flushed-Flushed v id k out_of_fuel here saved = (v, λ i. refl)

  -- the frame that was written back, or the file as it was
  written_keeps :
      {db : DataBuffer df} (v : IsValid db) (id k i : ℕ)
      → db.id_to_frame id ≡ some k
      → (df.write_block db.file id (db.frames k).contents).1 ≡ ok tt
      → df.read_block db.file i ≡ view db i
      → df.read_block (df.write_block db.file id (db.frames k).contents).0 i ≡ view db i
  written_keeps {db} v id k i here done h = elim (ℕ_discrete id i) [
    | yes e ↦
        subst
          (λ j. df.read_block (df.write_block db.file id (db.frames k).contents).0 j ≡ view db j) e
          (df.read_written db.file id (db.frames k).contents done ∙ sym (view_mapped db id k here))
    | no ne ↦ df.read_other db.file id i (db.frames k).contents ne ∙ h
  ]

  module _ {db : DataBuffer df} (v : IsValid db) (id k : ℕ)
      (here : db.id_to_frame id ≡ some k) where
    abbrev written : DataBuffer df
    written = record db { file = (df.write_block db.file id (db.frames k).contents).0 }

    flush_written :
        (r : Result (Unit {0}))
        → (df.write_block db.file id (db.frames k).contents).1 ≡ r
        → (db.frames k).is_dirty ≡ true
        → Flushed db id (flushed written k r)
    unfolding Flushed flushed
    flush_written (ok u) done dirty =
        let (v', s) = written-IsValid v id k here dirty in
        let (v'', s', saved, keep) =
          flushed-Flushed v' id k (ok u) here
            (λ _. df.read_written db.file id (db.frames k).contents done) in
        (
          v'',
          λ i. s' i ∙ s i,
          saved,
          λ i h. keep i (written_keeps v id k i here done h ∙ sym (s i)),
        )
    flush_written (err e) done dirty = written-IsValid v id k here dirty
    flush_written panic done dirty = written-IsValid v id k here dirty
    flush_written out_of_fuel done dirty = written-IsValid v id k here dirty

    flush_clean : (db.frames k).is_dirty ≡ false → Flushed db id (db, ok tt)
    unfolding Flushed
    flush_clean clean =
        (v, λ i. refl, v.clean id k here clean ∙ sym (view_mapped db id k here), λ i h. h)

    flush-Flushed : Flushed db id (flush db id k)
    unfolding flush
    flush-Flushed = elim (Bool-cases ((db.frames k).is_dirty)) [
      | inl dirty ↦ rw dirty (flush_written _ refl dirty)
      | inr clean ↦ rw clean (flush_clean clean)
    ]

  and_then-Synced :
      (db : DataBuffer df) (id : ℕ) (order : List ℕ) (r : DataBuffer df × Result (Unit {0}))
      (next : DataBuffer df → DataBuffer df × Result (Unit {0}))
      → Flushed db id r
      → ((db' : DataBuffer df) → IsValid db' → Synced db' order (next db'))
      → Synced db (id ∷ order) (and_then r next)
  unfolding Flushed
  and_then-Synced db id order (db', ok u) next (v, s, saved, keep) h =
      Synced-step db db' id order (next db') s saved keep (h db' v)
  and_then-Synced db id order (db', err e) next f h = f
  and_then-Synced db id order (db', panic) next f h = f
  and_then-Synced db id order (db', out_of_fuel) next f h = f

  sync-Synced : (order : List ℕ) {db : DataBuffer df} → IsValid db → Synced db order (sync db order)
  unfolding sync
  sync-Synced [] {db} v = (v, λ i. refl, λ i h. elim h [ inl old ↦ old | inr (q, e) ↦ cc ])
  sync-Synced (id ∷ order) {db} v = elim (Option-cases (db.id_to_frame id)) [
    | inl absent ↦ rw (absent, sync) (v, λ i. refl)
    | inr (k, here) ↦
        rw (here, sync)
          (and_then-Synced db id order (flush db id k) (λ db'. sync db' order)
            (flush-Flushed v id k here) (λ db' v'. sync-Synced order v'))
  ]

  Synced-view :
      (db : DataBuffer df) (order : List ℕ) (r : DataBuffer df × Result (Unit {0}))
      → Synced db order r
      → IsValid r.0 × SameView r.0 db
  Synced-view db order (db', ok u) (v, s, f) = (v, s)
  Synced-view db order (db', err e) h = h
  Synced-view db order (db', panic) h = h
  Synced-view db order (db', out_of_fuel) h = h

  module _ {db : DataBuffer df} (order : List ℕ) (v : IsValid db) where
    -- From a valid buffer, whatever blocks are visited and in whatever order, and also if a write
    -- fails: the buffer stays valid and no block looks different to a client.
    pub sync-view : IsValid (sync db order).0 × SameView (sync db order).0 db
    sync-view = Synced-view db order (sync db order) (sync-Synced order v)

    -- If `Sync` of a valid buffer succeeds after it has visited every block of the buffer, then the
    -- file holds, of every block, what the client saw before.
    pub sync_saves :
        ((i k : ℕ) → db.id_to_frame i ≡ some k → (q : ℕ) × (get_elem? order q ≡ some i))
        → (db' : DataBuffer df) → sync db order ≡ (db', ok tt)
        → (i : ℕ) → df.read_block db'.file i ≡ view db i
    sync_saves every db' done i =
        (subst (Synced db order) done (sync-Synced order v)).2 i
          (elim (Option-cases (db.id_to_frame i)) [
            | inl absent ↦ inl (sym (view_unmapped db i absent))
            | inr (k, here) ↦ inr (every i k here)
          ])
