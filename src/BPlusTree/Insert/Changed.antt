-- ===== src/BPlusTree/Insert/Changed.antt =====
-- `Find` of src/bplustree/bplus_tree.go after the entries of one leaf changed at one key.
use pucrs_metadata_db.Base.{
  ℕ, ◌<◌, ◌≡◌, ◌≢◌, refl, sym, ap, ◌∙◌, arith, ◌==◌, ==_iff, ==_of_ne, if◌then◌else◌, Bool-cases,
  inl, inr, Option, some, List, ok,
}
use native.Mathlib.Decide.{ℕ_discrete}
use pucrs_metadata_db.BPlusTree.Entries.{LeafEntry}
use pucrs_metadata_db.BPlusTree.Adapter.{leaf, InMemoryAdapter, load_root}
use pucrs_metadata_db.BPlusTree.Find.{find_leaf_for_key, find}
use pucrs_metadata_db.BPlusTree.Find.Search.{InOrder}
use pucrs_metadata_db.BPlusTree.Find.SearchTree.{IsLeafNode, IsSearchTree}
use pucrs_metadata_db.BPlusTree.Find.Walk.{tree_loads, find_leaf_for_key-ends}
use pucrs_metadata_db.BPlusTree.Insert.Lookup.{key_list, item_of}
use pucrs_metadata_db.BPlusTree.Insert.Answer.{
  answer_of, find-item_of, answer-found, answer-given, given, given-item,
}
use pucrs_metadata_db.BPlusTree.Insert.Replaced.{
  replaced, same_node, leaf_kept, loads_kept, walk_both,
}

module _ {Item : Type 0} (a : InMemoryAdapter Item) (fuel d hi : ℕ) (enough : d < fuel)
    (tree : IsSearchTree a d a.root_id 0 hi) where
  pub root_here : load_root a ≡ ok (some a.root_id, a)
  unfolding load_root
  root_here = tree_loads a 0 d a.root_id 0 hi tree

  -- At the leaf `w` at which the walk for `k` ends.
  pub old_item :
      (k w lw hw : ℕ)
      → find_leaf_for_key fuel a.root_id k a ≡ ok (w, a)
      → (m : IsLeafNode a w lw hw) → answer_of (find fuel k a) ≡ item_of k m.entries
  old_item k w lw hw here m =
      ap answer_of (find-item_of a fuel k w m.entries root_here here m.stored m.in_order)
      ∙ answer-found a (item_of k m.entries)

  -- `Find` in a search tree ends with an item or says that there is none.
  pub find-given : (k : ℕ) → k < hi → (x : Option Item) × (find fuel k a ≡ given a x)
  find-given k small =
      let (w, lw, hw, here, m, _, _) =
        find_leaf_for_key-ends a k fuel d a.root_id 0 hi enough tree (omega arith) small in
      (
        item_of k m.entries,
        find-item_of a fuel k w m.entries root_here here m.stored m.in_order
            ∙ given-item a (item_of k m.entries),
      )

  module _ (l lo' hi' : ℕ) (n : IsLeafNode a l lo' hi') (es' : List (LeafEntry Item))
      (sorted : InOrder (key_list es')) where
    abbrev changed : InMemoryAdapter Item
    changed = replaced a l n.entries n.stored es'

    root_there : load_root changed ≡ ok (some a.root_id, changed)
    unfolding load_root
    root_there = loads_kept a l n.entries n.stored es' d a.root_id 0 hi tree

    new_given :
        (k w lw hw : ℕ)
        → find_leaf_for_key fuel a.root_id k changed ≡ ok (w, changed)
        → (m : IsLeafNode a w lw hw)
        → find fuel k changed ≡ given changed (item_of k (if w == l then es' else m.entries))
    new_given k w lw hw there m =
        find-item_of changed fuel k w (if w == l then es' else m.entries) root_there there
          (leaf_kept a l n.entries n.stored es' w m.entries m.stored) in_order
        ∙ given-item changed (item_of k (if w == l then es' else m.entries))
      where
        in_order : InOrder (key_list (if w == l then es' else m.entries))
        in_order = elim (Bool-cases (w == l)) [ inl e ↦ rw e sorted | inr e ↦ rw e m.in_order ]

    new_item :
        (k w lw hw : ℕ)
        → find_leaf_for_key fuel a.root_id k changed ≡ ok (w, changed)
        → (m : IsLeafNode a w lw hw)
        → answer_of (find fuel k changed) ≡ item_of k (if w == l then es' else m.entries)
    new_item k w lw hw there m =
        ap answer_of (new_given k w lw hw there m)
        ∙ answer-given changed (item_of k (if w == l then es' else m.entries))

    -- `Find` there ends with an item or says that there is none, too.
    pub find_changed-given :
        (k : ℕ) → k < hi → find fuel k changed ≡ given changed (answer_of (find fuel k changed))
    find_changed-given k small =
        let (w, lw, hw, here, there, m) =
          walk_both a l n.entries n.stored es' fuel d a.root_id 0 hi k enough tree (omega arith)
            small in
        new_given k w lw hw there m ∙ ap (given changed) (sym (new_item k w lw hw there m))

    same_leaf : (w lw hw : ℕ) (m : IsLeafNode a w lw hw) → w ≡ l → m.entries ≡ n.entries
    same_leaf w lw hw m e =
        let same = same_node a l n.entries n.stored es' w (leaf m.entries) m.stored e in
        ground (arith, same)

    module _ (key : ℕ) (walk : find_leaf_for_key fuel a.root_id key a ≡ ok (l, a))
        (others : (k : ℕ) → k ≢ key → item_of k es' ≡ item_of k n.entries) where
      kept :
          (k w lw hw : ℕ) (m : IsLeafNode a w lw hw)
          → k ≢ key
          → item_of k (if w == l then es' else m.entries) ≡ item_of k m.entries
      kept k w lw hw m ne = elim (ℕ_discrete w l) [
        | no other ↦ rw (==_of_ne w l other) refl
        | yes e ↦ rw ((==_iff w l).1 e) (others k ne ∙ ap (item_of k) (sym (same_leaf w lw hw m e)))
      ]

      -- The key has the item of the new entries, every other key the one that it had.
      pub find_changed :
          (k : ℕ)
          → k < hi
          → answer_of (find fuel k changed)
            ≡ (if k == key then item_of key es' else answer_of (find fuel k a))
      find_changed k small =
          let (w, lw, hw, here, there, m) =
            walk_both a l n.entries n.stored es' fuel d a.root_id 0 hi k enough tree (omega arith)
              small in
          elim (ℕ_discrete k key) [
            | yes e ↦
                let at_leaf : w ≡ l =
                  ground (arith, here, ap (λ x. find_leaf_for_key fuel a.root_id x a) e, walk) in
                new_item k w lw hw there m ∙ ground (arith, at_leaf, e)
            | no ne ↦
                new_item k w lw hw there m
                ∙ rw (==_of_ne k key ne) (kept k w lw hw m ne ∙ sym (old_item k w lw hw here m))
          ]
