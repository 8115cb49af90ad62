-- ===== src/BPlusTree/Delete/Enough.antt =====
-- `Delete` of src/bplustree/bplus_tree.go where the leaf of the key keeps enough entries.
use pucrs_metadata_db.Base.{
  ℕ, ◌<◌, ◌+◌, ◌≡◌, ◌⊎◌, inl, inr, sym, ap, ◌∙◌, arith, Bool, true, false, ◌==◌, ltb, ==_iff,
  if◌then◌else◌, none, some, List, length, get_elem?, get_elem?-lt_length, ok, err, key_not_found,
}
use pucrs_metadata_db.BPlusTree.Entries.{LeafEntry, without_at, leaf_delete_at}
use pucrs_metadata_db.BPlusTree.Adapter.{leaf, InMemoryAdapter, node_of, set_node, is_root}
use pucrs_metadata_db.BPlusTree.NodeOps.{total_keys, leaf_entries, set_entries}
use pucrs_metadata_db.BPlusTree.Leaf
use pucrs_metadata_db.BPlusTree.Find.{search, find_in, find_leaf_for_key, find}
use pucrs_metadata_db.BPlusTree.Find.SearchTree.{Stored, IsLeafNode, IsSearchTree}
use pucrs_metadata_db.BPlusTree.Find.Descent.{on_node, length-map}
use pucrs_metadata_db.BPlusTree.Find.Walk.{find_leaf_for_key-ends}
use pucrs_metadata_db.BPlusTree.Insert.{BPlusTree}
use pucrs_metadata_db.BPlusTree.Insert.Lookup.{key_list, item_of, pick, item_of-search}
use pucrs_metadata_db.BPlusTree.Insert.Answer.{answer_of, hit, found_flag}
use pucrs_metadata_db.BPlusTree.Insert.Replaced.{replaced}
use pucrs_metadata_db.BPlusTree.Insert.Changed.{root_here, old_item, find_changed}
use pucrs_metadata_db.BPlusTree.Insert.Room.{pick-hit}
use pucrs_metadata_db.BPlusTree.Delete.{delete, delete_from_leaf}
use pucrs_metadata_db.BPlusTree.Delete.Lookup.{
  Distinct, get_elem?-without_at, length-without_at, without_at-InOrder, item_of-without_at_other,
  item_of-without_at_self, hit_entry,
}
use pucrs_metadata_db.BPlusTree.Delete.Kept.{Among, tree_still}

without_at-Among : {A : Type 0} (xs : List A) (p : ℕ) → Among (without_at xs p) xs
without_at-Among xs p i x h = (if ltb i p then i else i + 1, sym (get_elem?-without_at xs p i) ∙ h)

module _ {Item : Type 0} (t : BPlusTree) (a : InMemoryAdapter Item) (fuel d hi : ℕ)
    (enough : d < fuel) (tree : IsSearchTree a d a.root_id 0 hi) (key : ℕ) (below : key < hi) where
  module _ (l lo' hi' : ℕ) (n : IsLeafNode a l lo' hi')
      (walk : find_leaf_for_key fuel a.root_id key a ≡ ok (l, a)) where
    abbrev position : ℕ
    position = search (key_list n.entries) key

    abbrev left_over : List (LeafEntry Item)
    left_over = without_at n.entries position

    abbrev a' : InMemoryAdapter Item
    a' = replaced a l n.entries n.stored left_over

    here : item_of key n.entries ≡ answer_of (find fuel key a)
    here = sym (old_item a fuel d hi enough tree key l lo' hi' walk n)

    found_as :
        (b : Bool)
        → hit key (get_elem? n.entries position) ≡ b
        → find_in (key_list n.entries) key ≡ (position, b)
    found_as b h =
        found_flag a fuel key l n.entries (root_here a fuel d hi enough tree) walk n.stored
          n.in_order
        ∙ ap (λ x. (position, x)) h

    taken_out :
        (e : LeafEntry Item)
        → get_elem? n.entries position ≡ some e
        → Leaf.delete_at l position a ≡ ok (e, a')
    unfolding Leaf.delete_at leaf_entries set_entries node_of set_node leaf_delete_at
    taken_out e h = ground (arith, n.stored.found, n.stored.shape, h)

    left_total : total_keys l a' ≡ ok (length left_over, a')
    unfolding total_keys node_of
    left_total = ground (arith, length-map (λ (e : LeafEntry Item). e.key) left_over)

    -- The leaf keeps enough entries, or it is the root, which may have fewer.
    abbrev pub MayShrink : Type 0
    MayShrink = (t.half_leaf_capacity < length n.entries) ⊎ (l ≡ a.root_id)

    shrinks :
        (e : LeafEntry Item)
        → get_elem? n.entries position ≡ some e
        → MayShrink
        → delete_from_leaf t fuel l position a ≡ ok (tt, a')
    unfolding delete_from_leaf is_root
    shrinks e h (inl more) =
        let size =
          length-without_at n.entries position (get_elem?-lt_length n.entries position e h) in
        ground (arith, taken_out e h, left_total, size)
    shrinks e h (inr root) =
        ground (arith, taken_out e h, left_total, (==_iff a.root_id l).1 (sym root))

    delete_here :
        (e : LeafEntry Item)
        → get_elem? n.entries position ≡ some e
        → find_in (key_list n.entries) key ≡ (position, true)
        → MayShrink
        → delete t fuel key a ≡ ok (tt, a')
    unfolding delete
    delete_here e h found may =
        let on = on_node a l (leaf n.entries) n.stored key ∙ ap (λ r. ok (r, a)) found in
        ground (arith, root_here a fuel d hi enough tree, walk, on, shrinks e h may)

  -- Let the adapter hold a search tree from 0 up to `hi`, with fuel for one node more than its depth, let
  -- `Find` find the key, which is below `hi`, and let the leaf that the walk ends at have no two
  -- entries with the same key, and more than half of its capacity of them or be the root. Then
  -- `Delete` succeeds and leaves a search tree of the same depth and bounds. After it `Find` finds
  -- nothing for that key, and for every other key below `hi` what it found before.
  pub find-delete :
      (old : Item)
      → find fuel key a ≡ ok (old, a)
      → ((l : ℕ) (es : List (LeafEntry Item))
          → find_leaf_for_key fuel a.root_id key a ≡ ok (l, a)
          → Stored a l (leaf es)
          → Distinct es × ((t.half_leaf_capacity < length es) ⊎ (l ≡ a.root_id)))
      → (a' : InMemoryAdapter Item) × (delete t fuel key a ≡ ok (tt, a'))
        × IsSearchTree a' d a'.root_id 0 hi
        × ((k : ℕ)
            → k < hi
            → answer_of (find fuel k a') ≡ (if k == key then none else answer_of (find fuel k a)))
  find-delete old found may =
      let (l, lo', hi', walk, n, _, _) =
        find_leaf_for_key-ends a key fuel d a.root_id 0 hi enough tree (omega arith) below in
      let p = search (key_list n.entries) key in
      let (distinct, shrink) = may l n.entries walk n.stored in
      let picked : pick key (get_elem? n.entries p) ≡ some old =
        sym (item_of-search key n.entries n.in_order)
        ∙ here l lo' hi' n walk
        ∙ ap answer_of found in
      let (e, h, same) = hit_entry key (get_elem? n.entries p) old picked in
      let left = without_at n.entries p in
      let sorted = without_at-InOrder n.entries p n.in_order in
      let gone : item_of key left ≡ none =
        ap (λ k. item_of k left) (sym same) ∙ item_of-without_at_self n.entries p e distinct h in
      (
        a' l lo' hi' n walk,
        delete_here l lo' hi' n walk e h
            (found_as l lo' hi' n walk true ((pick-hit key (get_elem? n.entries p)).1 old picked))
            shrink,
        tree_still a l n.entries n.stored left sorted (without_at-Among n.entries p) d a.root_id 0
            hi tree,
        λ k small.
            find_changed a fuel d hi enough tree l lo' hi' n left sorted key walk
              (λ k ne. item_of-without_at_other n.entries p e k h (λ z. ne (z ∙ same))) k small
            ∙ ap (λ x. if k == key then x else answer_of (find fuel k a)) gone,
      )

  -- `Delete` of a key that `Find` does not find returns an error.
  pub delete_missing : find fuel key a ≡ err key_not_found → delete t fuel key a ≡ err key_not_found
  unfolding delete
  delete_missing miss =
      let (l, lo', hi', walk, n, _, _) =
        find_leaf_for_key-ends a key fuel d a.root_id 0 hi enough tree (omega arith) below in
      let picked : pick key (get_elem? n.entries (search (key_list n.entries) key)) ≡ none =
        sym (item_of-search key n.entries n.in_order) ∙ here l lo' hi' n walk ∙ ap answer_of miss in
      let on =
        on_node a l (leaf n.entries) n.stored key
        ∙ ap (λ r. ok (r, a))
            (found_as l lo' hi' n walk false
              ((pick-hit key (get_elem? n.entries (search (key_list n.entries) key))).0 picked)) in
      ground (arith, root_here a fuel d hi enough tree, walk, on)
