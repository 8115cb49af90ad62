-- ===== src/BPlusTree/Delete/Lookup.antt =====
-- The entries of a leaf as a map from keys to items, and what `DeleteAt` of
-- src/bplustree/in_memory_adapter.go does to it.
use pucrs_metadata_db.Base.{
  ℕ, zero, suc, ◌+◌, ◌-◌, ◌<◌, ◌≡◌, ◌≢◌, refl, sym, ap, subst, ◌∙◌, arith, ltb, if◌then◌else◌,
  Option, none, some, List, [], ◌∷◌, length, get_elem?,
}
use pucrs_metadata_db.BPlusTree.Entries.{LeafEntry, without_at}
use pucrs_metadata_db.BPlusTree.Find.Search.{InOrder}
use pucrs_metadata_db.BPlusTree.Insert.Lookup.{key_list, item_of, pick, item_of_absent}

-- No two entries have the same key.
abbrev pub Distinct : {Item : Type 0} → List (LeafEntry Item) → Type 0
Distinct {Item} es =
    (i j : ℕ) (e f : LeafEntry Item)
    → i < j
    → get_elem? es i ≡ some e
    → get_elem? es j ≡ some f
    → e.key ≢ f.key

module _ {A : Type 0} where
  without_at_nil : (p : ℕ) → without_at {A = A} [] p ≡ []
  without_at_nil zero = refl
  without_at_nil (suc p) = ground arith

  without_at-suc : (x : A) (xs : List A) (p : ℕ) → without_at (x ∷ xs) (suc p) ≡ x ∷ without_at xs p
  without_at-suc x xs p = ground arith

  pub get_elem?-without_at :
      (xs : List A) (p i : ℕ)
      → get_elem? (without_at xs p) i ≡ get_elem? xs (if ltb i p then i else i + 1)
  get_elem?-without_at [] p i = ap (λ (xs : List A). get_elem? xs i) (without_at_nil p)
  get_elem?-without_at (x ∷ xs) zero i = ground arith
  get_elem?-without_at (x ∷ xs) (suc p) zero = ground arith
  get_elem?-without_at (x ∷ xs) (suc p) (suc i) = ground (arith, get_elem?-without_at xs p i)

  pub length-without_at :
      (xs : List A) (p : ℕ) → p < length xs → length (without_at xs p) ≡ length xs - 1
  length-without_at [] p h = absurd (omega arith)
  length-without_at (x ∷ xs) zero h = omega arith
  length-without_at (x ∷ xs) (suc p) h =
      omega (arith, ap length (without_at-suc x xs p), length-without_at xs p)

keys-without_at-InOrder : (xs : List ℕ) (p : ℕ) → InOrder xs → InOrder (without_at xs p)
keys-without_at-InOrder xs p sorted i j x y l hi hj = ground (
  arith,
  get_elem?-without_at xs p i,
  get_elem?-without_at xs p j,
  sorted i j x y l,
  sorted i (j + 1) x y,
  sorted (i + 1) (j + 1) x y,
)

module _ {Item : Type 0} where
  pub map-without_at :
      (es : List (LeafEntry Item)) (p : ℕ) → key_list (without_at es p) ≡ without_at (key_list es) p
  map-without_at [] zero = refl
  map-without_at [] (suc p) =
      ground (arith, without_at_nil {A = LeafEntry Item} (suc p), without_at_nil {A = ℕ} (suc p))
  map-without_at (x ∷ es) zero = refl
  map-without_at (x ∷ es) (suc p) =
      ap key_list (without_at-suc x es p)
      ∙ ap (λ (ys : List ℕ). x.key ∷ ys) (map-without_at es p)
      ∙ sym (without_at-suc x.key (key_list es) p)

  -- What is left of the keys is in order.
  pub without_at-InOrder :
      (es : List (LeafEntry Item)) (p : ℕ)
      → InOrder (key_list es)
      → InOrder (key_list (without_at es p))
  without_at-InOrder es p sorted =
      subst (λ keys. InOrder keys) (sym (map-without_at es p))
        (keys-without_at-InOrder (key_list es) p sorted)

  -- The entry that is taken out had the only item of its key; the others stay.
  pub item_of-without_at_other :
      (es : List (LeafEntry Item)) (p : ℕ) (e : LeafEntry Item) (key : ℕ)
      → get_elem? es p ≡ some e
      → key ≢ e.key
      → item_of key (without_at es p) ≡ item_of key es
  item_of-without_at_other [] p e key h ne = ap (item_of key) (without_at_nil p)
  item_of-without_at_other (x ∷ es) zero e key h ne = ground (arith, h)
  item_of-without_at_other (x ∷ es) (suc p) e key h ne =
      ground (arith, item_of-without_at_other es p e key h ne)

  pub item_of-without_at_self :
      (es : List (LeafEntry Item)) (p : ℕ) (e : LeafEntry Item)
      → Distinct es
      → get_elem? es p ≡ some e
      → item_of e.key (without_at es p) ≡ none
  item_of-without_at_self es p e distinct h = item_of_absent e.key (without_at es p) (λ i f q same.
      ground
        (arith, get_elem?-without_at es p i, distinct i p f e, distinct p (i + 1) e f, h, q, same))

  -- What is picked is the item of an entry with the key.
  pub hit_entry :
      (key : ℕ) (x : Option (LeafEntry Item)) (old : Item)
      → pick key x ≡ some old
      → (e : LeafEntry Item) × (x ≡ some e) × (e.key ≡ key)
  hit_entry key none old h = absurd (ground (arith, h))
  hit_entry key (some e) old h = (e, refl, ground arith)
