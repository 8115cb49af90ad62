-- ===== src/Core/DataBlocksMap/Search.antt =====
-- The search for a free block, on the map as a set.
use pucrs_metadata_db.Base.{
  ℕ, zero, suc, ◌+◌, ◌*◌, ◌/◌, ◌%◌, ◌≤◌, ◌<◌, ◌≡◌, refl, ap, ap₂, ◌∙◌, arith, true, Option, none,
  some, ok, ◌⊎◌, inl, inr, Result, Option-cases, subst,
}
use native.Mathlib.Decide.{dec_lt}
use pucrs_metadata_db.Dbio.DataFile.{DataFile}
use pucrs_metadata_db.Dbio.DataBuffer.{DataBuffer}
use pucrs_metadata_db.Dbio.DataBuffer.Total.{IsReliable}
use pucrs_metadata_db.Dbio.BitMap
use pucrs_metadata_db.Dbio.BitMap.Laws.{flag}
use pucrs_metadata_db.Core.Repository.{Prog, Handle, pure, fetch, look}
use pucrs_metadata_db.Core.Repository.Sees.{Store, block_in, Sees, bind-ok, fetch-Sees, look-Sees}
use pucrs_metadata_db.Core.DataBlocksMap.{first_flag, blocks_loop, first_free}
use pucrs_metadata_db.Core.DataBlocksMap.Flags.{IsFirst, flags_loop-IsFirstFree}
use pucrs_metadata_db.Core.DataBlocksMap.Spec.{bits, in_use}

first_flag-IsFirst :
    (σ : Store) (k : ℕ)
    → (r : Option ℕ) × (first_flag (block_in σ k) ≡ ok r) × IsFirst (flag (bits σ k)) 0 4096 r
unfolding first_flag BitMap.new_from_bytes
first_flag-IsFirst σ k = flags_loop-IsFirstFree (bits σ k) 4096 0 (omega arith) (omega arith)

in_use_at : (σ : Store) (k p : ℕ) → p < 4096 → in_use σ (p + k * 4096) ≡ flag (bits σ (1 + k)) p
in_use_at σ k p h =
    let block : (p + k * 4096) / 4096 ≡ k = omega arith in
    let place : (p + k * 4096) % 4096 ≡ p = omega arith in
    ap₂ (λ x y. flag (bits σ (1 + x)) y) block place

-- The flag of a block in part `k` of the map.
in_use_in :
    (σ : Store) (k q : ℕ)
    → k * 4096 ≤ q
    → q < k * 4096 + 4096
    → in_use σ q ≡ flag (bits σ (1 + k)) (q % 4096)
in_use_in σ k q x y =
    let block : q / 4096 ≡ k = omega arith in ap (λ z. flag (bits σ (1 + z)) (q % 4096)) block

-- Nothing is free in this part, so the first free block is that of the later parts.
IsFirst-later :
    (σ : Store) (k n : ℕ) (r : Option ℕ)
    → ((p : ℕ) → 0 ≤ p → p < 0 + 4096 → flag (bits σ (1 + k)) p ≡ true)
    → IsFirst (in_use σ) ((k + 1) * 4096) (n * 4096) r
    → IsFirst (in_use σ) (k * 4096) (suc n * 4096) r
IsFirst-later σ k n none full rest = λ q x y. elim (dec_lt q ((k + 1) * 4096)) [
  | yes l ↦ in_use_in σ k q x (omega arith) ∙ full (q % 4096) (omega arith) (omega arith)
  | no l ↦ rest q (omega arith) (omega arith)
]
IsFirst-later σ k n (some id) full (x, y, z, all) = (
  omega arith,
  omega arith,
  z,
  λ q u v. elim (dec_lt q ((k + 1) * 4096)) [
    | yes l ↦ in_use_in σ k q u (omega arith) ∙ full (q % 4096) (omega arith) (omega arith)
    | no l ↦ all q (omega arith) v
  ],
)

module _ {df : DataFile} {blocks : ℕ} {Good : df.File → Type 0}
    (reliable : IsReliable df blocks Good) (σ : Store) where
  -- The call that ends in `r` looked at the flags from `i` on, `n` of them, and changed no byte.
  abbrev Searched : ℕ → ℕ → DataBuffer df × Result (Option ℕ) → Type 0
  Searched i n c =
      (db : DataBuffer df) × (r : Option ℕ) × (c ≡ (db, ok r))
      × Sees reliable db σ
      × IsFirst (in_use σ) i n r

  found : ℕ → ℕ → Option ℕ → Prog df (Option ℕ)
  unfolding blocks_loop
  found n k free = elim free [ some i ↦ pure (some (i + k * 4096)) | none ↦ blocks_loop n (k + 1) ]

  -- The rest of the loop, once the flags of one block were searched.
  after_block :
      (n k : ℕ) (db : DataBuffer df) (r : Option ℕ)
      → Sees reliable db σ
      → Searched ((k + 1) * 4096) (n * 4096) (blocks_loop n (k + 1) db)
      → IsFirst (flag (bits σ (1 + k))) 0 4096 r
      → Searched (k * 4096) (suc n * 4096) (found n k r db)
  unfolding found
  after_block n k db none s (db', r, e, s', rest) full =
      (db', r, e, s', IsFirst-later σ k n r full rest)
  after_block n k db (some p) s later (x, y, z, all) = (
    db,
    some (p + k * 4096),
    refl,
    s,
    (
      omega arith,
      omega arith,
      in_use_at σ k p y ∙ z,
      λ q u v. in_use_in σ k q u (omega arith) ∙ all (q % 4096) (omega arith) (omega arith),
    ),
  )

  blocks_loop-Searched :
      (n k : ℕ) (db : DataBuffer df)
      → Sees reliable db σ
      → k + n < blocks
      → Searched (k * 4096) (n * 4096) (blocks_loop n k db)
  unfolding blocks_loop found
  blocks_loop-Searched zero k db s h = (db, none, refl, s, λ q x y. absurd (omega arith))
  blocks_loop-Searched (suc n) k db s h =
      let (db', frame, e, s', held) = fetch-Sees reliable db σ (1 + k) s (omega arith) in
      let block : Handle = record { id = 1 + k; frame = frame } in
      let (r, q, first) = first_flag-IsFirst σ (1 + k) in
      let seen = look-Sees reliable db' σ block s' held first_flag ∙ ap (λ x. (db', x)) q in
      let rest = blocks_loop-Searched n (k + 1) db' s' (omega arith) in
      let (db'', r', e', s'', all) = after_block n k db' r s' rest first in
      (
        db'',
        r',
        bind-ok (fetch (1 + k)) _ db db' block e
            ∙ bind-ok (look block first_flag) _ db' db' r seen
            ∙ e',
        s'',
        all,
      )

  -- `FirstFree` changes no byte and answers with the lowest block that is not in use, of the 8192
  -- that it looks at, or with 0 if they are all in use.
  pub first_free-Sees :
      (db : DataBuffer df)
      → Sees reliable db σ
      → 2 < blocks
      → (db' : DataBuffer df) × (id : ℕ) × (first_free db ≡ (db', ok id))
        × Sees reliable db' σ
        × (IsFirst (in_use σ) 0 8192 (some id) ⊎ ((id ≡ 0) × IsFirst (in_use σ) 0 8192 none))
  unfolding first_free
  first_free-Sees db s h =
      let (db', r, e, s', first) = blocks_loop-Searched 2 0 db s h in
      let answer = bind-ok (blocks_loop 2 0) _ db db' r e in
      elim (Option-cases r) [
        | inl all ↦ (
          db',
          0,
          answer ∙ ap (λ x. (db', ok (elim x [ some id ↦ id | none ↦ 0 ]))) all,
          s',
          inr (refl, subst (λ x. IsFirst (in_use σ) 0 8192 x) all first),
        )
        | inr (id, one) ↦ (
          db',
          id,
          answer ∙ ap (λ x. (db', ok (elim x [ some id ↦ id | none ↦ 0 ]))) one,
          s',
          inl (subst (λ x. IsFirst (in_use σ) 0 8192 x) one first),
        )
      ]
