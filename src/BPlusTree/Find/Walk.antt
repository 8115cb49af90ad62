-- ===== src/BPlusTree/Find/Walk.antt =====
-- `Find` on a search tree: fuel for its depth is enough, and the answer is that of one leaf.
use pucrs_metadata_db.Base.{
  ℕ, zero, suc, ◌≤◌, ◌<◌, ◌≡◌, ◌≢◌, ◌⊎◌, refl, ap, ◌∙◌, arith, Bool, true, if◌then◌else◌,
  Bool-cases, inl, inr, some, List, [], ◌∷◌, get_elem?, map, ok, err, key_not_found,
}
use pucrs_metadata_db.BPlusTree.Entries.{LeafEntry, BranchEntry}
use pucrs_metadata_db.BPlusTree.Adapter.{
  leaf, branch, InMemoryAdapter, node_of, load_root, load_node,
}
use pucrs_metadata_db.BPlusTree.NodeOps.{leaf_entries}
use pucrs_metadata_db.BPlusTree.Leaf
use pucrs_metadata_db.BPlusTree.Find.{find_in, find_on_node, find_leaf_for_key, find}
use pucrs_metadata_db.BPlusTree.Find.Search.{find_in-found}
use pucrs_metadata_db.BPlusTree.Find.SearchTree.{Stored, IsLeafNode, IsSearchTree}
use pucrs_metadata_db.BPlusTree.Find.Descent.{
  get_elem?-map, branch_is_leaf, branch_total, branch_entry, on_node, node_loads, leaf_is_leaf,
  child_of, place, chosen,
}

module _ {Item : Type 0} (a : InMemoryAdapter Item) (key : ℕ) where
  pub tree_loads : (d id lo hi : ℕ) → IsSearchTree a d id lo hi → load_node id a ≡ ok (some id, a)
  tree_loads zero id lo hi t = node_loads a id (leaf t.entries) t.stored
  tree_loads (suc d) id lo hi t = node_loads a id (branch t.entries) t.stored

  -- One round of the loop, at a branch.
  pub step :
      (fuel id : ℕ) (es : List BranchEntry)
      → Stored a id (branch es)
      → (e : BranchEntry) → get_elem? es (place es key) ≡ some e
      → load_node (child_of key e) a ≡ ok (some (child_of key e), a)
      → find_leaf_for_key (suc fuel) id key a ≡ find_leaf_for_key fuel (child_of key e) key a
  unfolding find_leaf_for_key find_in
  step fuel id es s e h loads = ground (
    arith,
    branch_is_leaf a id es s,
    on_node a id (branch es) s key,
    branch_total a id es s,
    branch_entry a id es s (place es key) e h,
    loads,
  )

  -- The walk from the root of a search tree ends, with fuel for one node more than the depth, at a
  -- leaf whose interval has the key.
  pub find_leaf_for_key-ends :
      (fuel d id lo hi : ℕ)
      → d < fuel
      → IsSearchTree a d id lo hi
      → lo ≤ key
      → key < hi
      → (l : ℕ) × (lo' : ℕ) × (hi' : ℕ) × (find_leaf_for_key fuel id key a ≡ ok (l, a))
        × IsLeafNode a l lo' hi'
        × (lo' ≤ key)
        × (key < hi')
  unfolding find_leaf_for_key
  find_leaf_for_key-ends zero d id lo hi f t x y = absurd (omega (arith, f))
  find_leaf_for_key-ends (suc fuel) zero id lo hi f t x y =
      (id, lo, hi, ground (arith, leaf_is_leaf a id t.entries t.stored), t, x, y)
  find_leaf_for_key-ends (suc fuel) (suc d) id lo hi f t x y =
      let (e, h, (lo', hi', child, x', y')) = chosen a (IsSearchTree a d) id lo hi key t x y in
      let r = find_leaf_for_key-ends fuel d (child_of key e) lo' hi' (omega arith) child x' y' in
      (
        r.0,
        r.1,
        r.2,
        step fuel id t.entries t.stored e h (tree_loads d (child_of key e) lo' hi' child) ∙ r.3,
        r.4,
        r.5,
        r.6,
      )

  -- What `Find` answers from the entries of a leaf: the item of the key, or an error if no entry has
  -- the key.
  abbrev pub Answers : ℕ → List (LeafEntry Item) → Type 0
  Answers fuel es =
      ((i : ℕ) × (item : Item) × (get_elem? es i ≡ some (record { key = key; item = item }))
        × (find fuel key a ≡ ok (item, a)))
      ⊎ (((i : ℕ) (e : LeafEntry Item) → get_elem? es i ≡ some e → e.key ≢ key)
          × (find fuel key a ≡ err key_not_found))

  pub leaf_item :
      (id p : ℕ) (es : List (LeafEntry Item)) (e : LeafEntry Item)
      → Stored a id (leaf es)
      → get_elem? es p ≡ some e
      → Leaf.item_at id p a ≡ ok (e.item, a)
  unfolding Leaf.item_at leaf_entries node_of
  leaf_item id p es e s h = ground (arith, s.found, s.shape, h)

  pub answer :
      (fuel l : ℕ) (es : List (LeafEntry Item)) (r : ℕ × Bool)
      → load_root a ≡ ok (some a.root_id, a)
      → find_leaf_for_key fuel a.root_id key a ≡ ok (l, a)
      → find_on_node l key a ≡ ok (r, a)
      → find fuel key a ≡ (if r.1 then Leaf.item_at l r.0 a else err key_not_found)
  unfolding find
  answer fuel l es r x y z = ground (arith, x, y, z)

unmapped :
    {A : Type 0} (f : A → ℕ) (xs : List A) (i k : ℕ)
    → get_elem? (map f xs) i ≡ some k
    → (x : A) × (get_elem? xs i ≡ some x) × (f x ≡ k)
unmapped f [] i k h = ground (arith, h)
unmapped f (x ∷ xs) zero k h = (x, refl, ground (arith, h))
unmapped f (x ∷ xs) (suc i) k h = unmapped f xs i k h

found_key :
    (keys : List ℕ) (key : ℕ)
    → (find_in keys key).1 ≡ true
    → get_elem? keys (find_in keys key).0 ≡ some key
unfolding find_in
found_key keys key h = ground (arith, h)

module _ {Item : Type 0} (a : InMemoryAdapter Item) (key : ℕ) where
  leaf-Answers :
      (fuel l lo hi : ℕ) (t : IsLeafNode a l lo hi)
      → load_root a ≡ ok (some a.root_id, a)
      → find_leaf_for_key fuel a.root_id key a ≡ ok (l, a)
      → Answers a key fuel t.entries
  leaf-Answers fuel l lo hi t root walk =
      let keys = map (λ (e : LeafEntry Item). e.key) t.entries in
      let e =
        answer a key fuel l t.entries (find_in keys key) root walk
          (on_node a l (leaf t.entries) t.stored key) in
      elim (Bool-cases (find_in keys key).1) [
        | inl hit ↦
            let (x, at, same) =
              unmapped (λ (e : LeafEntry Item). e.key) t.entries (find_in keys key).0 key
                (found_key keys key hit) in
            inl (
              (find_in keys key).0,
              x.item,
              at ∙ ap (λ k. some (record { key = k; item = x.item })) same,
              e
                  ∙ ground
                      (arith, hit, leaf_item a key l (find_in keys key).0 t.entries x t.stored at),
            )
        | inr miss ↦ inr (
          λ i x at same. ground (
            arith,
            miss,
            (find_in-found keys key t.in_order).1
                (i, get_elem?-map (λ (e : LeafEntry Item). e.key) t.entries i x at ∙ ap some same),
          ),
          e ∙ ground (arith, miss),
        )
      ]

  -- `Find` on a search tree from 0 up to `hi`, for a key below `hi` and with fuel for one node more
  -- than the depth, neither panics nor runs out of fuel: there is a leaf whose interval has the key,
  -- and `Find` gives the item of the key there, or `key_not_found` if no entry of that leaf has it.
  pub find-Answers :
      (fuel d hi : ℕ)
      → d < fuel
      → IsSearchTree a d a.root_id 0 hi
      → key < hi
      → (l : ℕ) × (lo' : ℕ) × (hi' : ℕ) × (t : IsLeafNode a l lo' hi') × (lo' ≤ key)
        × (key < hi')
        × Answers a key fuel t.entries
  unfolding load_root
  find-Answers fuel d hi f t x =
      let r = find_leaf_for_key-ends a key fuel d a.root_id 0 hi f t (omega arith) x in
      (
        r.0,
        r.1,
        r.2,
        r.4,
        r.5,
        r.6,
        leaf-Answers fuel r.0 r.1 r.2 r.4 (tree_loads a key d a.root_id 0 hi t) r.3,
      )
