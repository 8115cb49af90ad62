-- ===== src/Dbio/DataBuffer/Valid.antt =====
-- The invariant of the buffer, and what a client can see of it.
mod Count
use native.Mathlib.Decide.{ℕ_discrete}
use pucrs_metadata_db.Base.{
  ℕ, zero, suc, ◌+◌, ◌≤◌, ◌<◌, ◌≡◌, refl, sym, ap, ◌∙◌, ◌≢◌, Bool, true, false, ◌==◌, if◌then◌else◌,
  Option, none, some, List, length, get_elem?, arith, Result, ok, Option-cases, inl, inr,
}
use pucrs_metadata_db.Dbio.Bytes.{Mem}
use pucrs_metadata_db.Dbio.DataFile.{DataFile}
use pucrs_metadata_db.Dbio.DataBuffer.{
  Frame, Frames, set_frame, DataBuffer, with_frames, update_frame, new_data_buffer,
}
use pucrs_metadata_db.Dbio.DataBuffer.Eviction.{SameButReferenced, AllMapped}
pub use Count.*

module _ {df : DataFile} where
  -- What a client sees of block `i`: the frame if the buffer has the block, the file if not.
  abbrev pub view : DataBuffer df → ℕ → Result Mem
  view db i = elim (db.id_to_frame i) [
    | some k ↦ ok (db.frames k).contents
    | none ↦ df.read_block db.file i
  ]

  pub view_mapped :
      (db : DataBuffer df) (i k : ℕ)
      → db.id_to_frame i ≡ some k
      → view db i ≡ ok (db.frames k).contents
  view_mapped db i k e = rw (e, view)

  pub view_unmapped :
      (db : DataBuffer df) (i : ℕ) → db.id_to_frame i ≡ none → view db i ≡ df.read_block db.file i
  view_unmapped db i e = rw (e, view)

  -- Each block has a frame of its own, which is in use; the victims are blocks of the buffer, each
  -- once, and as many as there are frames in use; a clean frame holds what the file holds.
  pub record IsValid (db : DataBuffer df) : Type 0 where
    pub positive : 0 < db.size
    pub fits : length db.next_victims ≤ db.size
    pub injective : (i j k : ℕ) → db.id_to_frame i ≡ some k → db.id_to_frame j ≡ some k → i ≡ j
    pub frame_small : (i k : ℕ) → db.id_to_frame i ≡ some k → k < db.size
    pub frame_in_use : (i k : ℕ) → db.id_to_frame i ≡ some k → (db.frames k).in_use ≡ true
    pub counted : count_in_use db.size 0 db.frames ≡ length db.next_victims
    pub victims_mapped : AllMapped db.next_victims db.id_to_frame db.size
    pub victims_once :
        (p q v : ℕ)
        → get_elem? db.next_victims p ≡ some v
        → get_elem? db.next_victims q ≡ some v
        → p ≡ q
    pub clean :
        (i k : ℕ)
        → db.id_to_frame i ≡ some k
        → (db.frames k).is_dirty ≡ false
        → df.read_block db.file i ≡ ok (db.frames k).contents

  -- The two buffers show a client the same blocks.
  abbrev pub SameView : DataBuffer df → DataBuffer df → Type 0
  SameView db db' = (i : ℕ) → view db i ≡ view db' i

  -- The two differ in frames only, and a block's frame holds the same bytes.
  same_contents_view :
      (db : DataBuffer df) (fs : Frames)
      → ((i k : ℕ) → db.id_to_frame i ≡ some k → (fs k).contents ≡ (db.frames k).contents)
      → SameView (with_frames db fs) db
  same_contents_view db fs h i = elim (Option-cases (db.id_to_frame i)) [
    | inl e ↦ view_unmapped (with_frames db fs) i e ∙ sym (view_unmapped db i e)
    | inr (k, e) ↦
        view_mapped (with_frames db fs) i k e ∙ ap ok (h i k e) ∙ sym (view_mapped db i k e)
  ]

  module _ {db : DataBuffer df} (v : IsValid db) where
    -- Nothing but reference bits differs.
    pub with_frames-IsValid :
        (fs : Frames)
        → ((k : ℕ) → SameButReferenced (fs k) (db.frames k))
        → IsValid (with_frames db fs) × SameView (with_frames db fs) db
    with_frames-IsValid fs same = (
      record {
        positive = v.positive;
        fits = v.fits;
        injective = v.injective;
        frame_small = v.frame_small;
        frame_in_use = λ i k e. (same k).in_use ∙ v.frame_in_use i k e;
        counted = count_same db.size 0 fs db.frames (λ k. (same k).in_use) ∙ v.counted;
        victims_mapped = v.victims_mapped;
        victims_once = v.victims_once;
        clean = λ i k e d. ground (arith, same k, v.clean i k e);
      },
      same_contents_view db fs (λ i k e. (same k).contents),
    )

    -- The frame of a block of the buffer gets other flags, and is dirty or as clean as it was.
    pub flags-IsValid :
        (id k : ℕ) (f : Frame)
        → db.id_to_frame id ≡ some k
        → f.in_use ≡ true
        → f.contents ≡ (db.frames k).contents
        → ((f.is_dirty ≡ false) → df.read_block db.file id ≡ ok f.contents)
        → IsValid (update_frame db k f) × SameView (update_frame db k f) db
    flags-IsValid id k f e used same c = (
      record {
        positive = v.positive;
        fits = v.fits;
        injective = v.injective;
        frame_small = v.frame_small;
        frame_in_use = λ i j h. ground (arith, v.frame_in_use i j h);
        counted =
            count_same db.size 0 (set_frame db.frames k f) db.frames
              (λ j. ground (arith, v.frame_in_use id k e))
            ∙ v.counted;
        victims_mapped = v.victims_mapped;
        victims_once = v.victims_once;
        clean = λ i j h d. ground (arith, v.clean i j h, v.injective i id j h, c);
      },
      same_contents_view db (set_frame db.frames k f) (λ i j h. ground arith),
    )

    -- The file is written with a dirty frame. This holds also of a write that fails.
    pub written-IsValid :
        (id k : ℕ)
        → db.id_to_frame id ≡ some k
        → (db.frames k).is_dirty ≡ true
        → let db' = record db { file = (df.write_block db.file id (db.frames k).contents).0 } in
          IsValid db' × SameView db' db
    written-IsValid id k e dirty =
        let other = df.read_other db.file id in
        let d' = (db.frames k).contents in
        (
          record {
            positive = v.positive;
            fits = v.fits;
            injective = v.injective;
            frame_small = v.frame_small;
            frame_in_use = v.frame_in_use;
            counted = v.counted;
            victims_mapped = v.victims_mapped;
            victims_once = v.victims_once;
            clean = λ i j h d. elim (ℕ_discrete i id) [
              | yes q ↦ cc (ap db.id_to_frame q)
              | no ne ↦ other i d' (λ q. ne (sym q)) ∙ v.clean i j h d
            ];
          },
          λ i. elim (Option-cases (db.id_to_frame i)) [
            | inl h ↦ unseen i h (other i d' (λ q. cc (ap db.id_to_frame q)))
            | inr (j, h) ↦
                view_mapped (record db { file = file' }) i j h ∙ sym (view_mapped db i j h)
          ],
        )
      where
        file' : df.File
        file' = (df.write_block db.file id (db.frames k).contents).0

        unseen :
            (i : ℕ)
            → db.id_to_frame i ≡ none
            → df.read_block file' i ≡ df.read_block db.file i
            → view (record db { file = file' }) i ≡ view db i
        unseen i h q =
            view_unmapped (record db { file = file' }) i h ∙ q ∙ sym (view_unmapped db i h)
