-- ===== src/Core/RecordAllocator/Allocate.antt =====
-- `allocateNewBlock` of src/simplejsondb/core/record_allocator.go, on the blocks that the buffer shows.
use pucrs_metadata_db.Base.{
  ℕ, ◌≤◌, ◌<◌, ◌≡◌, ◌≢◌, refl, ap, ◌∙◌, arith, Bool, true, false, ==_iff, ==_of_ne, if◌then◌else◌,
  some, ok, ◌⊎◌, inl, inr,
}
use native.Mathlib.Decide.{dec_lt}
use pucrs_metadata_db.Dbio.Bytes.{Mem, peek16, poke16}
use pucrs_metadata_db.Dbio.Bytes.Laws.{poke16_outside, peek16-poke16_self}
use pucrs_metadata_db.Dbio.DataBlock.Laws.{write16-ok}
use pucrs_metadata_db.Dbio.DataFile.{DataFile}
use pucrs_metadata_db.Dbio.DataBuffer.{DataBuffer}
use pucrs_metadata_db.Dbio.DataBuffer.Total.{IsReliable}
use pucrs_metadata_db.Core.ControlBlock.{set_next_available_records_data_block_id}
use pucrs_metadata_db.Core.Repository.{Prog, Handle, pure, fetch, change, dirty, ◌>>=◌, ◌>>◌}
use pucrs_metadata_db.Core.Repository.Sees.{
  Store, put_block, block_in, Sees, bind-ok, fetch-Sees, change-Sees, change-then,
}
use pucrs_metadata_db.Core.RecordBlock.Methods.{set_next_block_id, set_prev_block_id}
use pucrs_metadata_db.Core.DataBlocksMap.{first_free, mark_as_used}
use pucrs_metadata_db.Core.DataBlocksMap.Flags.{IsFirst}
use pucrs_metadata_db.Core.DataBlocksMap.Spec.{
  IsByteStore, map_block, in_use, same_flag, with_used, in_use-with_used, mark_as_used-Sees,
}
use pucrs_metadata_db.Core.DataBlocksMap.Search.{first_free-Sees}
use pucrs_metadata_db.Core.RecordAllocator.BlocksList.{set_next, set_prev, allocate_new_block}

module _ {df : DataFile} {blocks : ℕ} {Good : df.File → Type 0}
    (reliable : IsReliable df blocks Good) (σ : Store) (db : DataBuffer df) (s : Sees reliable db σ)
    (id x : ℕ) (inside : id < blocks) where
  set_prev-Sees :
      (db' : DataBuffer df) × (set_prev id x db ≡ (db', ok tt))
      × Sees reliable db' (put_block σ id (poke16 (σ id) 4088 x))
  unfolding set_prev set_prev_block_id
  set_prev-Sees =
      let (db₁, frame, e, s₁, held) = fetch-Sees reliable db σ id s inside in
      let h : Handle = record { id = id; frame = frame } in
      let (db₂, e₂, s₂, _) =
        change-Sees reliable db₁ σ h s₁ held (λ b. set_prev_block_id b x) _
          (write16-ok (block_in σ id) 4088 x (omega arith)) in
      (db₂, bind-ok (fetch id) _ db db₁ h e ∙ e₂, s₂)

  set_next-Sees :
      (db' : DataBuffer df) × (set_next id x db ≡ (db', ok tt))
      × Sees reliable db' (put_block σ id (poke16 (σ id) 4090 x))
  unfolding set_next set_next_block_id
  set_next-Sees =
      let (db₁, frame, e, s₁, held) = fetch-Sees reliable db σ id s inside in
      let h : Handle = record { id = id; frame = frame } in
      let (db₂, e₂, s₂, _) =
        change-Sees reliable db₁ σ h s₁ held (λ b. set_next_block_id b x) _
          (write16-ok (block_in σ id) 4090 x (omega arith)) in
      (db₂, bind-ok (fetch id) _ db db₁ h e ∙ e₂, s₂)

-- The stores on the way, and the last one: block `id` is taken for the list, behind `start`.
module _ (σ : Store) (start id : ℕ) where
  abbrev marked : Store
  marked = with_used σ id

  abbrev with_prev : Store
  with_prev = put_block marked id (poke16 (marked id) 4088 start)

  abbrev with_next : Store
  with_next = put_block with_prev start (poke16 (with_prev start) 4090 id)

  abbrev pub allocated : Store
  allocated = put_block with_next 0 (poke16 (with_next 0) 0 id)

-- A store in which block `id` was appended behind block `start`: the two point at each other, new
-- records go to `id`, its flag is set, and every other byte outside the map is as before.
pub record IsAppended (σ τ : Store) (start id : ℕ) : Type 0 where
  pub prev : peek16 (τ id) 4088 ≡ start
  pub next : peek16 (τ start) 4090 ≡ id
  pub insert_block : peek16 (τ 0) 0 ≡ id
  pub flags : (j : ℕ) → j < 8192 → in_use τ j ≡ (if same_flag id j then true else in_use σ j)
  pub first_block : (p : ℕ) → 2 ≤ p → τ 0 p ≡ σ 0 p
  pub new_block : (p : ℕ) → (p < 4088) ⊎ (4090 ≤ p) → τ id p ≡ σ id p
  pub old_block : (p : ℕ) → (p < 4090) ⊎ (4092 ≤ p) → τ start p ≡ σ start p
  pub others : (i : ℕ) → 2 < i → i ≢ id → i ≢ start → τ i ≡ σ i

module _ (σ : Store) (b : IsByteStore σ) (start id : ℕ) (start_large : 2 < start)
    (start_small : start < 65536) (id_large : 2 < id) (id_small : id < 8192)
    (apart : start ≢ id) where
  map_kept : (k : ℕ) → 0 < k → k < 3 → allocated σ start id k ≡ marked σ start id k
  map_kept k x y =
      rw (==_of_ne k 0 (omega arith), ==_of_ne k start (omega arith), ==_of_ne k id (omega arith))

  -- Marking changes the map only.
  marked_kept : (i : ℕ) → 2 < i → marked σ start id i ≡ σ i
  marked_kept i h = rw (==_of_ne i (map_block id) (omega arith))

  marked_first : marked σ start id 0 ≡ σ 0
  marked_first = rw (==_of_ne 0 (map_block id) (omega arith))

  at_new : allocated σ start id id ≡ poke16 (σ id) 4088 start
  at_new =
      rw (==_of_ne id 0 (omega arith), ==_of_ne id start (omega arith), (==_iff id id).1 refl)
        (ap (λ m. poke16 m 4088 start) (marked_kept id id_large))

  at_old : allocated σ start id start ≡ poke16 (σ start) 4090 id
  at_old =
      rw (==_of_ne start 0 (omega arith), (==_iff start start).1 refl, ==_of_ne start id apart)
        (ap (λ m. poke16 m 4090 id) (marked_kept start start_large))

  at_first : allocated σ start id 0 ≡ poke16 (σ 0) 0 id
  at_first =
      rw (==_of_ne 0 start (omega arith), ==_of_ne 0 id (omega arith))
        (ap (λ m. poke16 m 0 id) marked_first)

  allocated-IsAppended : IsAppended σ (allocated σ start id) start id
  allocated-IsAppended = record {
    prev = rw at_new (peek16-poke16_self (σ id) 4088 start start_small);
    next = rw at_old (peek16-poke16_self (σ start) 4090 id (omega arith));
    insert_block = rw at_first (peek16-poke16_self (σ 0) 0 id (omega arith));
    flags = λ j h.
        ap (λ (m : Mem). in_use (λ _. m) j) (map_kept (map_block j) (omega arith) (omega arith))
        ∙ in_use-with_used σ b id j;
    first_block = λ p h. rw at_first (poke16_outside (σ 0) 0 id p (omega arith));
    new_block = λ p h. rw at_new (poke16_outside (σ id) 4088 start p (ground arith));
    old_block = λ p h. rw at_old (poke16_outside (σ start) 4090 id p (ground arith));
    others = λ i h x y.
        rw (==_of_ne i 0 (omega arith), ==_of_ne i start y, ==_of_ne i id x) (marked_kept i h);
  }

-- `allocateNewBlock` after the search for a free block.
append : {df : DataFile} → ℕ → ℕ → Prog df ℕ
append start id = do
  mark_as_used id
  set_prev id start
  set_next start id
  control_block ← fetch 0
  change control_block (λ cb. set_next_available_records_data_block_id cb id)
  dirty control_block.id
  pure id

differ : (f : ℕ → Bool) (i j : ℕ) → f i ≡ true → f j ≡ false → i ≢ j
differ f i j used free e = let same = ap f e in cc

module _ {df : DataFile} {blocks : ℕ} {Good : df.File → Type 0}
    (reliable : IsReliable df blocks Good) (σ : Store) (b : IsByteStore σ) (start : ℕ)
    (start_large : 2 < start) (start_small : start < 65536) (inside : start < blocks) where
  -- The calls after the search for a free block.
  append-Sees :
      (db : DataBuffer df) (id : ℕ)
      → Sees reliable db σ
      → 2 < id
      → id < 8192
      → id < blocks
      → (db' : DataBuffer df) × (append start id db ≡ (db', ok id))
        × Sees reliable db' (allocated σ start id)
  unfolding append set_next_available_records_data_block_id
  append-Sees db id s large small id_inside =
      let (db₁, e₁, s₁) = mark_as_used-Sees reliable db σ s b id (omega arith) in
      let (db₂, e₂, s₂) = set_prev-Sees reliable (marked σ start id) db₁ s₁ id start id_inside in
      let (db₃, e₃, s₃) = set_next-Sees reliable (with_prev σ start id) db₂ s₂ start id inside in
      let (db₄, frame, e₄, s₄, held) =
        fetch-Sees reliable db₃ (with_next σ start id) 0 s₃ (omega arith) in
      let h : Handle = record { id = 0; frame = frame } in
      let (db₅, e₅, s₅, _) =
        change-then reliable db₄ (with_next σ start id) h s₄ held (pure id)
          (λ cb. set_next_available_records_data_block_id cb id) _
          (write16-ok (block_in (with_next σ start id) 0) 0 id (omega arith)) in
      (
        db₅,
        bind-ok (mark_as_used id) _ db db₁ tt e₁
            ∙ bind-ok (set_prev id start) _ db₁ db₂ tt e₂
            ∙ bind-ok (set_next start id) _ db₂ db₃ tt e₃
            ∙ bind-ok (fetch 0) _ db₃ db₄ h e₄
            ∙ e₅,
        s₅,
      )

  -- On a buffer whose blocks hold bytes, let the blocks 0, 1 and 2 and the block at the end of the list of record blocks, `start`, be in
  -- use, and let some block of the file below 8192 be free. Then `allocateNewBlock(start)` succeeds with
  -- a block that was free, the lowest one, and appends it to the list.
  pub allocate_new_block-Sees :
      (db : DataBuffer df) (free : ℕ)
      → Sees reliable db σ
      → in_use σ 0 ≡ true
      → in_use σ 1 ≡ true
      → in_use σ 2 ≡ true
      → in_use σ start ≡ true
      → in_use σ free ≡ false
      → free < blocks
      → free < 8192
      → (db' : DataBuffer df) × (id : ℕ) × (τ : Store) × (allocate_new_block start db
          ≡ (db', ok id))
        × IsFirst (in_use σ) 0 8192 (some id)
        × Sees reliable db' τ
        × IsAppended σ τ start id
  unfolding allocate_new_block append
  allocate_new_block-Sees db free s used_0 used_1 used_2 used_start is_free free_inside free_small =
      let (db₁, id, e, s₁, answer) = first_free-Sees reliable σ db s (omega arith) in
      elim answer [
        | inr (z, all) ↦
            absurd (differ (in_use σ) free free (all free (omega arith) free_small) is_free refl)
        | inl (x, small, unused, before) ↦
            let large : 2 < id = ground (
              arith,
              differ (in_use σ) 0 id used_0 unused,
              differ (in_use σ) 1 id used_1 unused,
              differ (in_use σ) 2 id used_2 unused,
            ) in
            let low : id ≤ free = elim (dec_lt free id) [
              | yes l ↦
                  absurd (differ (in_use σ) free free (before free (omega arith) l) is_free refl)
              | no l ↦ omega arith
            ] in
            let (db₂, e₂, s₂) = append-Sees db₁ id s₁ large small (omega arith) in
            (
              db₂,
              id,
              allocated σ start id,
              bind-ok first_free _ db db₁ id e ∙ e₂,
              (x, small, unused, before),
              s₂,
              allocated-IsAppended σ b start id start_large start_small large small
                  (differ (in_use σ) start id used_start unused),
            )
      ]
