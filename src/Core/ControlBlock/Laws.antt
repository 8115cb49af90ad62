-- ===== src/Core/ControlBlock/Laws.antt =====
-- The four pointers of the control block are independent variables.
use pucrs_metadata_db.Base.{ℕ, ◌+◌, ◌≤◌, ◌<◌, ◌≡◌, ap, ◌∙◌, arith, Result, ok, ◌>>=◌}
use pucrs_metadata_db.Dbio.Bytes.{Mem, peek16, poke16}
use pucrs_metadata_db.Dbio.Bytes.Laws.{peek16-Same, poke16_outside, peek16-poke16_self}
use pucrs_metadata_db.Dbio.DataBlock.{DataBlock, mem, size, with_mem}
use pucrs_metadata_db.Dbio.DataBlock.Laws.{read_uint16-ok, write16-ok}
use pucrs_metadata_db.Core.ControlBlock.{
  format, first_record_data_block, set_first_record_data_block, first_leaf, set_first_leaf,
  index_root_block_id, set_index_root_block_id, next_available_records_data_block_id,
  set_next_available_records_data_block_id,
}

pub record Pointers : Type 0 where
  pub next_available : ℕ
  pub first_record : ℕ
  pub index_root : ℕ
  pub first_leaf : ℕ

-- What the four getters answer.
abbrev pub read_all : DataBlock → Result Pointers
read_all cb = do
  n ← next_available_records_data_block_id cb
  f ← first_record_data_block cb
  r ← index_root_block_id cb
  l ← first_leaf cb
  ok (record { next_available = n; first_record = f; index_root = r; first_leaf = l })

abbrev pointers : Mem → Pointers
pointers m = record {
  next_available = peek16 m 0;
  first_record = peek16 m 2;
  index_root = peek16 m 4;
  first_leaf = peek16 m 6;
}

peek16-other : (m : Mem) (p q x : ℕ) → p + 2 ≤ q → peek16 (poke16 m p x) q ≡ peek16 m q
peek16-other m p q x h =
    peek16-Same (poke16 m p x) m q (λ k y z. poke16_outside m p x k (omega arith))

peek16-before : (m : Mem) (p q x : ℕ) → q + 2 ≤ p → peek16 (poke16 m p x) q ≡ peek16 m q
peek16-before m p q x h =
    peek16-Same (poke16 m p x) m q (λ k y z. poke16_outside m p x k (omega arith))

read_all-ok : (cb : DataBlock) → 8 ≤ size cb → read_all cb ≡ ok (pointers (mem cb))
unfolding next_available_records_data_block_id first_record_data_block index_root_block_id
    first_leaf
read_all-ok cb h = rw (
  read_uint16-ok cb 0 (omega arith),
  read_uint16-ok cb 2 (omega arith),
  read_uint16-ok cb 4 (omega arith),
  read_uint16-ok cb 6 (omega arith),
)

module _ (m : Mem) (x : ℕ) (h : x < 65536) where
  set_0 : pointers (poke16 m 0 x) ≡ record (pointers m) { next_available = x }
  set_0 = rw (
    peek16-poke16_self m 0 x h,
    peek16-other m 0 2 x (omega arith),
    peek16-other m 0 4 x (omega arith),
    peek16-other m 0 6 x (omega arith),
  )

  set_2 : pointers (poke16 m 2 x) ≡ record (pointers m) { first_record = x }
  set_2 = rw (
    peek16-poke16_self m 2 x h,
    peek16-before m 2 0 x (omega arith),
    peek16-other m 2 4 x (omega arith),
    peek16-other m 2 6 x (omega arith),
  )

  set_4 : pointers (poke16 m 4 x) ≡ record (pointers m) { index_root = x }
  set_4 = rw (
    peek16-poke16_self m 4 x h,
    peek16-before m 4 0 x (omega arith),
    peek16-before m 4 2 x (omega arith),
    peek16-other m 4 6 x (omega arith),
  )

  set_6 : pointers (poke16 m 6 x) ≡ record (pointers m) { first_leaf = x }
  set_6 = rw (
    peek16-poke16_self m 6 x h,
    peek16-before m 6 0 x (omega arith),
    peek16-before m 6 2 x (omega arith),
    peek16-before m 6 4 x (omega arith),
  )

abbrev no_index : Pointers → Pointers
no_index p = record p { index_root = 0; first_leaf = 0 }

cleared_index_lem : (m : Mem) → pointers (poke16 (poke16 m 4 0) 6 0) ≡ no_index (pointers m)
unfolding peek16 poke16
cleared_index_lem m =
    set_6 (poke16 m 4 0) 0 (omega arith)
    ∙ ap (λ (p : Pointers). no_index p) (set_4 m 0 (omega arith))

formatted_lem :
    (m : Mem)
    → pointers (poke16 (poke16 (poke16 (poke16 m 0 3) 2 3) 4 0) 6 0)
      ≡ record { next_available = 3; first_record = 3; index_root = 0; first_leaf = 0 }
formatted_lem m =
    cleared_index_lem (poke16 (poke16 m 0 3) 2 3)
    ∙ ap (λ (p : Pointers). no_index p) (set_2 (poke16 m 0 3) 3 (omega arith))
    ∙ ap (λ (p : Pointers). no_index (record p { first_record = 3 })) (set_0 m 3 (omega arith))

module _ (cb : DataBlock) (room : 8 ≤ size cb) where
  -- The bytes that `Format` leaves, and what the getters read from them.
  abbrev pub formatted_mem : Mem
  formatted_mem = poke16 (poke16 (poke16 (poke16 (mem cb) 0 3) 2 3) 4 0) 6 0

  pub format-ok : format cb ≡ ok (with_mem cb formatted_mem)
  unfolding format
  format-ok =
      let a = poke16 (mem cb) 0 3 in
      let b = poke16 a 2 3 in
      let c = poke16 b 4 0 in
      rw (
        write16-ok cb 0 3 (omega arith),
        write16-ok (with_mem cb a) 2 3 (omega arith),
        write16-ok (with_mem cb b) 4 0 (omega arith),
        write16-ok (with_mem cb c) 6 0 (omega arith),
      )

  pub formatted_pointers :
      read_all (with_mem cb formatted_mem)
      ≡ ok (record { next_available = 3; first_record = 3; index_root = 0; first_leaf = 0 })
  formatted_pointers = read_all-ok (with_mem cb formatted_mem) room ∙ ap ok (formatted_lem (mem cb))

  -- In a block of eight bytes or more, after `Format`, records go to block 3, the list of blocks starts there, and there is no index.
  pub read_all-format :
      (format cb >>= read_all)
      ≡ ok (record { next_available = 3; first_record = 3; index_root = 0; first_leaf = 0 })
  read_all-format = rw format-ok formatted_pointers

  -- In a block of eight bytes or more, each setter changes what its getter answers to its argument,
  -- a `uint16`, and none of the other three pointers.
  pub read_all-set :
      (x : ℕ)
      → x < 65536
      → ((set_next_available_records_data_block_id cb x >>= read_all)
          ≡ (read_all cb >>= λ p. ok (record p { next_available = x })))
        × ((set_first_record_data_block cb x >>= read_all)
            ≡ (read_all cb >>= λ p. ok (record p { first_record = x })))
        × ((set_index_root_block_id cb x >>= read_all)
            ≡ (read_all cb >>= λ p. ok (record p { index_root = x })))
        × ((set_first_leaf cb x >>= read_all)
            ≡ (read_all cb >>= λ p. ok (record p { first_leaf = x })))
  unfolding set_next_available_records_data_block_id set_first_record_data_block
      set_index_root_block_id set_first_leaf
  read_all-set x h =
      rw
        (
          write16-ok cb 0 x (omega arith),
          write16-ok cb 2 x (omega arith),
          write16-ok cb 4 x (omega arith),
          write16-ok cb 6 x (omega arith),
          read_all-ok cb room,
          read_all-ok (with_mem cb (poke16 (mem cb) 0 x)) room,
          read_all-ok (with_mem cb (poke16 (mem cb) 2 x)) room,
          read_all-ok (with_mem cb (poke16 (mem cb) 4 x)) room,
          read_all-ok (with_mem cb (poke16 (mem cb) 6 x)) room,
        )
        (
          ap ok (set_0 (mem cb) x h),
          ap ok (set_2 (mem cb) x h),
          ap ok (set_4 (mem cb) x h),
          ap ok (set_6 (mem cb) x h),
        )
