-- ===== src/BPlusTree/Insert/AtLeaf.antt =====
-- One insertion into a leaf with room, of src/bplustree/bplus_tree.go.
use pucrs_metadata_db.Base.{
  ℕ, ◌<◌, ◌≡◌, ap, ◌∙◌, arith, false, ◌==◌, if◌then◌else◌, Option, none, some, List, length, ok,
}
use pucrs_metadata_db.BPlusTree.Entries.{LeafEntry, with_at}
use pucrs_metadata_db.BPlusTree.Adapter.{leaf, InMemoryAdapter, node_of, set_node}
use pucrs_metadata_db.BPlusTree.NodeOps.{total_keys, leaf_entries, set_entries}
use pucrs_metadata_db.BPlusTree.Leaf
use pucrs_metadata_db.BPlusTree.Find.{search, find_in, find_leaf_for_key, find}
use pucrs_metadata_db.BPlusTree.Find.Search.{search-Splits}
use pucrs_metadata_db.BPlusTree.Find.SearchTree.{IsLeafNode, IsSearchTree}
use pucrs_metadata_db.BPlusTree.Find.Descent.{length-map, on_node}
use pucrs_metadata_db.BPlusTree.Insert.{BPlusTree, insert, insert_on_leaf}
use pucrs_metadata_db.BPlusTree.Insert.Lookup.{
  key_list, item_of, item_of-with_at_other, item_of-with_at_self, leaf_insert_at-ok,
  with_at_keys-InOrder,
}
use pucrs_metadata_db.BPlusTree.Insert.Answer.{answer_of, given, answer-given}
use pucrs_metadata_db.BPlusTree.Insert.Changed.{
  root_here, find_changed, find-given, find_changed-given,
}
use pucrs_metadata_db.BPlusTree.Insert.Replaced.{replaced}

module _ {Item : Type 0} (t : BPlusTree) (a : InMemoryAdapter Item) (fuel d hi : ℕ)
    (enough : d < fuel) (tree : IsSearchTree a d a.root_id 0 hi) (key : ℕ) (item : Item)
    (below : key < hi) where
  abbrev new : LeafEntry Item
  new = record { key = key; item = item }

  module _ (l lo' hi' : ℕ) (n : IsLeafNode a l lo' hi')
      (walk : find_leaf_for_key fuel a.root_id key a ≡ ok (l, a)) where
    abbrev position : ℕ
    position = search (key_list n.entries) key

    abbrev inserted : List (LeafEntry Item)
    inserted = with_at n.entries position new

    abbrev a' : InMemoryAdapter Item
    a' = replaced a l n.entries n.stored inserted

    leaf_total : total_keys l a ≡ ok (length n.entries, a)
    unfolding total_keys node_of
    leaf_total = ground (
      arith,
      n.stored.found,
      n.stored.shape,
      length-map (λ (e : LeafEntry Item). e.key) n.entries,
    )

    put_in : Leaf.insert_at l position new a ≡ ok (tt, a')
    unfolding Leaf.insert_at leaf_entries set_entries node_of set_node
    put_in = ground (
      arith,
      n.stored.found,
      n.stored.shape,
      leaf_insert_at-ok n.entries position new (
          omega (
            arith,
            (search-Splits (key_list n.entries) key n.in_order).in_keys,
            length-map (λ (e : LeafEntry Item). e.key) n.entries,
          )),
    )

    -- The leaf has room and no entry with the key.
    pub insert_here :
        length n.entries < t.leaf_capacity
        → find_in (key_list n.entries) key ≡ (position, false)
        → insert t fuel key item a ≡ ok (tt, a')
    unfolding insert insert_on_leaf
    insert_here room miss =
        let found = on_node a l (leaf n.entries) n.stored key ∙ ap (λ r. ok (r, a)) miss in
        ground (arith, root_here a fuel d hi enough tree, walk, found, leaf_total, put_in)

    find_there :
        item_of key n.entries ≡ none
        → (k : ℕ) → k < hi
        → answer_of (find fuel k a') ≡ (if k == key then some item else answer_of (find fuel k a))
    find_there absent k small =
        find_changed a fuel d hi enough tree l lo' hi' n inserted
          (with_at_keys-InOrder n.entries new n.in_order) key walk
          (λ k ne. item_of-with_at_other n.entries position new k ne) k small
        ∙ ap (λ (x : Option Item). if k == key then x else answer_of (find fuel k a))
            (item_of-with_at_self n.entries position new absent)

    -- `Find` after the insertion, where it answered from `old` before.
    pub find_given_there :
        item_of key n.entries ≡ none
        → (k : ℕ) → k < hi
        → (old : Option Item) × (find fuel k a ≡ given a old)
          × (find fuel k a' ≡ given a' (if k == key then some item else old))
    find_given_there absent k small =
        let (old, before) = find-given a fuel d hi enough tree k small in
        (
          old,
          before,
          find_changed-given a fuel d hi enough tree l lo' hi' n inserted
                (with_at_keys-InOrder n.entries new n.in_order) k small
              ∙ ap (given a') (
                  find_there absent k small
                  ∙ ap (λ (x : Option Item). if k == key then some item else x)
                      (ap answer_of before ∙ answer-given a old)),
        )
