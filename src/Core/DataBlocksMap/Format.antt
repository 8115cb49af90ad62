-- ===== src/Core/DataBlocksMap/Format.antt =====
-- `FormatDataFileIfNeeded` of src/simplejsondb/core/data_file_formatter.go, on the blocks that the buffer
-- shows.
use pucrs_metadata_db.Base.{
  ℕ, zero, suc, ◌+◌, ◌≤◌, ◌<◌, ◌≡◌, ◌≢◌, refl, sym, ap, subst, ◌∙◌, arith, true, ==_of_ne,
  if◌then◌else◌, some, List, get_elem?, Result, ok,
}
use native.Mathlib.Decide.{ℕ_discrete}
use pucrs_metadata_db.Dbio.Bytes.{Mem, peek16, poke, poke16}
use pucrs_metadata_db.Dbio.DataBlock.{with_mem}
use pucrs_metadata_db.Dbio.DataBlock.Laws.{read_uint16-ok}
use pucrs_metadata_db.Dbio.DataFile.{DataFile}
use pucrs_metadata_db.Dbio.DataBuffer.{DataBuffer, sync}
use pucrs_metadata_db.Dbio.DataBuffer.Valid.{view, IsValid}
use pucrs_metadata_db.Dbio.DataBuffer.Sync.{sync-view, sync_saves}
use pucrs_metadata_db.Dbio.DataBuffer.Saved.{sync_map, sync-Succeeds}
use pucrs_metadata_db.Dbio.DataBuffer.Total.{IsReliable}
use pucrs_metadata_db.Core.ControlBlock.{format, next_available_records_data_block_id}
use pucrs_metadata_db.Core.ControlBlock.Laws.{
  read_all, formatted_mem, format-ok, formatted_pointers,
}
use pucrs_metadata_db.Core.Repository.{Handle, fetch, look, ◌>>◌}
use pucrs_metadata_db.Core.Repository.Sees.{
  Store, put_block, block_in, Sees, bind-ok, fetch-Sees, look-Sees, change-then,
}
use pucrs_metadata_db.Core.DataBlocksMap.{mark_as_used, mark_loop, format_if_needed}
use pucrs_metadata_db.Core.DataBlocksMap.Spec.{
  IsByteStore, map_block, in_use, same_flag, with_used, in_use-with_used, with_used-IsByteStore,
  mark_as_used-Sees,
}

-- The blocks from `i` on, `n` of them, are in use in `τ`, as are those that were in `σ`, and the blocks
-- outside the map are as in `σ`.
pub record IsMarked (σ τ : Store) (i n : ℕ) : Type 0 where
  pub marked : (j : ℕ) → i ≤ j → j < i + n → in_use τ j ≡ true
  pub still_marked : (j : ℕ) → in_use σ j ≡ true → in_use τ j ≡ true
  pub outside : (k : ℕ) → k ≢ 1 → k ≢ 2 → τ k ≡ σ k

-- What the store holds after it was formatted: block 0 says that records go to block 3, where the list
-- of blocks starts, and that there is no index; the blocks 0 to 3 are in use, as are those that were;
-- the blocks from 3 on are as before.
pub record IsFormatted (σ τ : Store) : Type 0 where
  pub pointers :
      read_all (block_in τ 0)
      ≡ ok (record { next_available = 3; first_record = 3; index_root = 0; first_leaf = 0 })
  pub used : (j : ℕ) → j < 4 → in_use τ j ≡ true
  pub still_used : (j : ℕ) → in_use σ j ≡ true → in_use τ j ≡ true
  pub others : (k : ℕ) → 2 < k → τ k ≡ σ k

same_flag_self : (i : ℕ) → same_flag i i ≡ true
same_flag_self i = ground arith

module _ {df : DataFile} {blocks : ℕ} {Good : df.File → Type 0}
    (reliable : IsReliable df blocks Good) (large : 2 < blocks) where
  mark_loop-Sees :
      (n i : ℕ) (db : DataBuffer df) (σ : Store)
      → Sees reliable db σ
      → IsByteStore σ
      → i + n ≤ 4096
      → (db' : DataBuffer df) × (τ : Store) × (mark_loop n i db ≡ (db', ok tt))
        × Sees reliable db' τ
        × IsMarked σ τ i n
  unfolding mark_loop
  mark_loop-Sees zero i db σ s b h = (
    db,
    σ,
    refl,
    s,
    record {
      marked = λ j x y. absurd (omega arith);
      still_marked = λ j x. x;
      outside = λ k x y. refl;
    },
  )
  mark_loop-Sees (suc n) i db σ s b h =
      let (db₁, e₁, s₁) = mark_as_used-Sees reliable db σ s b i (omega (arith, large)) in
      let (db₂, τ, e₂, s₂, m) =
        mark_loop-Sees n (i + 1) db₁ (with_used σ i) s₁ (with_used-IsByteStore σ b i)
          (omega arith) in
      (
        db₂,
        τ,
        bind-ok (mark_as_used i) (λ _. mark_loop n (i + 1)) db db₁ tt e₁ ∙ e₂,
        s₂,
        record {
          marked = λ j x y. elim (ℕ_discrete j i) [
            | yes same ↦
                m.still_marked j (
                  in_use-with_used σ b i j
                  ∙ ground (arith, same_flag_self i, ap (same_flag i) same))
            | no other ↦ m.marked j (omega arith) (omega arith)
          ];
          still_marked = λ j x. m.still_marked j (in_use-with_used σ b i j ∙ ground (arith, x));
          outside = λ k x y. m.outside k x y ∙ rw (==_of_ne k (map_block i) (omega arith)) refl;
        },
      )

  module _ (db : DataBuffer df) (σ : Store) (s : Sees reliable db σ) (order : List ℕ) where
    -- Block 0 names a block for new records: the call stops after the fetch of block 0.
    pub stops_after_fetch :
        peek16 (σ 0) 0 ≢ 0
        → (db' : DataBuffer df) × (frame : ℕ) × (format_if_needed order db ≡ (db', ok tt))
          × (fetch 0 db ≡ (db', ok (record { id = 0; frame = frame })))
          × Sees reliable db' σ
    unfolding format_if_needed next_available_records_data_block_id
    stops_after_fetch ne =
        let (db₁, frame, e₁, s₁, held) = fetch-Sees reliable db σ 0 s (omega arith) in
        let h : Handle = record { id = 0; frame = frame } in
        let next =
          look-Sees reliable db₁ σ h s₁ held next_available_records_data_block_id
          ∙ ap (λ r. (db₁, r)) (read_uint16-ok (block_in σ 0) 0 (omega arith)) in
        (
          db₁,
          frame,
          bind-ok (fetch 0) _ db db₁ h e₁
              ∙ bind-ok (look h next_available_records_data_block_id) _ db₁ db₁ (peek16 (σ 0) 0)
                  next
              ∙ rw (==_of_ne (peek16 (σ 0) 0) 0 ne) refl,
          e₁,
          s₁,
        )

    -- A file in which block 0 names a block for new records is not formatted again: the call succeeds
    -- and no byte changes.
    pub format_if_needed_skips :
        peek16 (σ 0) 0 ≢ 0
        → (db' : DataBuffer df) × (format_if_needed order db ≡ (db', ok tt)) × Sees reliable db' σ
    format_if_needed_skips ne = let (db', frame, e, _, s') = stops_after_fetch ne in (db', e, s')

    abbrev with_control : Store
    with_control = put_block σ 0 (formatted_mem (block_in σ 0) (omega arith))

    control-IsByteStore : IsByteStore σ → IsByteStore with_control
    unfolding poke16 poke
    control-IsByteStore b i p = ground (arith, b i p, b 0 p)

    map_kept : (j : ℕ) → in_use with_control j ≡ in_use σ j
    map_kept j =
        ap (λ (x : Mem). in_use (λ _. x) j)
          (ap (λ e. if e then formatted_mem (block_in σ 0) (omega arith) else σ (map_block j))
            (==_of_ne (map_block j) 0 (omega arith)))

    control-IsFormatted : (τ : Store) → IsMarked with_control τ 0 4 → IsFormatted σ τ
    control-IsFormatted τ m = record {
      pointers =
          ap (λ (x : Mem). read_all (with_mem (block_in σ 0) x))
            (m.outside 0 (omega arith) (omega arith))
          ∙ formatted_pointers (block_in σ 0) (omega arith);
      used = λ j h. m.marked j (omega arith) (omega arith);
      still_used = λ j h. m.still_marked j (map_kept j ∙ h);
      others =
          λ k h. m.outside k (omega arith) (omega arith) ∙ rw (==_of_ne k 0 (omega arith)) refl;
    }

    -- On a buffer that shows bytes, over a file that serves its blocks, at least three, let block 0 name no
    -- block for new records, and let `Sync` visit the blocks that the buffer holds, in any order. Then
    -- the call succeeds, and every block reads the same through the buffer and from the file, which is
    -- formatted: block 0 has its pointers, the blocks 0 to 3 are in use, as are those that were, and
    -- the blocks from 3 on are as before.
    pub format_if_needed-IsFormatted :
        IsByteStore σ
        → peek16 (σ 0) 0 ≡ 0
        → ((i k : ℕ)
            → (format_if_needed order db).0.id_to_frame i ≡ some k
            → (q : ℕ) × (get_elem? order q ≡ some i))
        → ((q i : ℕ)
            → get_elem? order q ≡ some i
            → (k : ℕ) × ((format_if_needed order db).0.id_to_frame i ≡ some k))
        → (db' : DataBuffer df) × (τ : Store) × (format_if_needed order db ≡ (db', ok tt))
          × Sees reliable db' τ
          × ((i : ℕ) → i < blocks → df.read_block db'.file i ≡ ok (τ i))
          × IsFormatted σ τ
    unfolding format_if_needed next_available_records_data_block_id
    format_if_needed-IsFormatted b zero_next every held =
        let (db₁, frame, e₁, s₁, in_frame) = fetch-Sees reliable db σ 0 s (omega arith) in
        let h : Handle = record { id = 0; frame = frame } in
        let next =
          look-Sees reliable db₁ σ h s₁ in_frame next_available_records_data_block_id
          ∙ ap (λ r. (db₁, r)) (read_uint16-ok (block_in σ 0) 0 (omega arith)) in
        let (db₂, e₂, s₂, _) =
          change-then reliable db₁ σ h s₁ in_frame (mark_loop 4 0 >> λ db. sync db order) format _
            (format-ok (block_in σ 0) (omega arith)) in
        let (db₃, τ, e₃, s₃, m) =
          mark_loop-Sees 4 0 db₂ with_control s₂ (control-IsByteStore b) (omega arith) in
        let all : format_if_needed order db ≡ sync db₃ order =
          bind-ok (fetch 0) _ db db₁ h e₁
          ∙ bind-ok (look h next_available_records_data_block_id) _ db₁ db₁ 0
              (next ∙ ap (λ n. (db₁, ok n)) zero_next)
          ∙ e₂
          ∙ bind-ok (mark_loop 4 0) (λ _ db. sync db order) db₂ db₃ tt e₃ in
        let same_map : (format_if_needed order db).0.id_to_frame ≡ db₃.id_to_frame =
          ap (λ (r : DataBuffer df × Result (Unit {0})). r.0.id_to_frame) all
          ∙ sync_map order db₃ in
        let (db₄, done, safe) =
          sync-Succeeds reliable order db₃ s₃.safe
            (λ q i x. let (k, there) = held q i x in (k, sym (ap (λ m. m i) same_map) ∙ there)) in
        let (valid, same) = sync-view order s₃.valid in
        let saved =
          sync_saves order s₃.valid (λ i k x. every i k (ap (λ m. m i) same_map ∙ x)) db₄ done in
        (
          db₄,
          τ,
          all ∙ done,
          record {
            valid = subst (λ (r : DataBuffer df × Result (Unit {0})). IsValid r.0) done valid;
            safe = safe;
            shows = λ i x.
                ap (λ (r : DataBuffer df × Result (Unit {0})). view r.0 i) (sym done)
                ∙ same i
                ∙ s₃.shows i x;
          },
          λ i x. saved i ∙ s₃.shows i x,
          control-IsFormatted τ m,
        )
