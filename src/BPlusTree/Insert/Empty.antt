-- ===== src/BPlusTree/Insert/Empty.antt =====
-- `Insert` of src/bplustree/bplus_tree.go into a tree that has no root yet.
use pucrs_metadata_db.Base.{
  ℕ, zero, suc, ◌+◌, ◌%◌, ◌≤◌, ◌<◌, ◌≡◌, refl, ◌∙◌, arith, ◌==◌, true, ==_iff, if◌then◌else◌, none,
  some, List, [], ◌∷◌, get_elem?, ok,
}
use pucrs_metadata_db.BPlusTree.Entries.{LeafEntry, leaf_insert_at}
use pucrs_metadata_db.BPlusTree.Adapter.{
  leaf, Node, InMemoryAdapter, put_node, load_node, load_root, node_of, set_node, create,
  create_leaf, init,
}
use pucrs_metadata_db.BPlusTree.NodeOps.{total_keys, leaf_entries, set_entries}
use pucrs_metadata_db.BPlusTree.Leaf
use pucrs_metadata_db.BPlusTree.Find.{
  bisect, search, find_in, find_on_node, find_leaf_for_key, find,
}
use pucrs_metadata_db.BPlusTree.Find.SearchTree.{IsSearchTree}
use pucrs_metadata_db.BPlusTree.Find.Descent.{leaf_is_leaf}
use pucrs_metadata_db.BPlusTree.Insert.{BPlusTree, insert, insert_on_leaf}
use pucrs_metadata_db.BPlusTree.Insert.Answer.{answer_of}
use pucrs_metadata_db.BPlusTree.Insert.Ascending.{one-InOrder}
use pucrs_metadata_db.BPlusTree.Insert.Changed.{old_item}

module _ {Item : Type 0} (t : BPlusTree) (a : InMemoryAdapter Item) (fuel key hi : ℕ) (item : Item)
    (below : key < hi) (no_root : a.nodes a.root_id ≡ none) (room : 0 < t.leaf_capacity) where
  abbrev entry : LeafEntry Item
  entry = record { key = key; item = item }

  abbrev node : List (LeafEntry Item) → Node Item
  node es = record { parent_id = 0; left_id = 0; right_id = 0; entries = leaf es }

  abbrev started : InMemoryAdapter Item
  started = record {
    root_id = a.next_node_id;
    first_leaf_id = a.next_node_id;
    next_node_id = (a.next_node_id + 1) % 65536;
    nodes = λ j. if j == a.next_node_id then some (node []) else a.nodes j;
  }

  abbrev a' : InMemoryAdapter Item
  a' = put_node started a.next_node_id (some (node (entry ∷ [])))

  here : (a.next_node_id == a.next_node_id) ≡ true
  here = (==_iff a.next_node_id a.next_node_id).1 refl

  inserts : insert t fuel key item a ≡ ok (tt, a')
  unfolding insert load_root load_node init create_leaf create find_on_node find_in search bisect
      node_of insert_on_leaf total_keys Leaf.insert_at leaf_entries leaf_insert_at set_entries
      set_node
  inserts = ground (arith, no_root, here, room)

  alone :
      (i : ℕ) (e : LeafEntry Item) → get_elem? (entry ∷ []) i ≡ some e → (0 ≤ e.key) × (e.key < hi)
  alone zero e h = ground (arith, h, below)
  alone (suc i) e h = absurd (ground (arith, h))

  abbrev tree : IsSearchTree a' 0 a'.root_id 0 hi
  tree = record {
    entries = entry ∷ [];
    stored = record { node = node (entry ∷ []); found = rw here refl; shape = refl };
    in_order = one-InOrder key;
    inside = alone;
  }

  -- Let the adapter have no node under its root ID and leaves have a capacity. Then `Insert` succeeds and
  -- leaves a search tree of one leaf, with any bound above the key, in which `Find` finds the item for
  -- that key and nothing for other keys below the bound.
  pub find-insert_empty :
      (a' : InMemoryAdapter Item) × (insert t fuel key item a ≡ ok (tt, a'))
      × IsSearchTree a' 0 a'.root_id 0 hi
      × ((n k : ℕ)
          → k < hi
          → answer_of (find (suc n) k a') ≡ (if k == key then some item else none))
  unfolding find_leaf_for_key
  find-insert_empty = (
    a',
    inserts,
    tree,
    λ n k small.
        let is_here = leaf_is_leaf a' a'.root_id (entry ∷ []) tree.stored in
        let walk : find_leaf_for_key (suc n) a'.root_id k a' ≡ ok (a'.root_id, a') =
          ground (arith, is_here) in
        old_item a' (suc n) 0 hi (omega arith) tree k a'.root_id 0 hi walk tree ∙ ground arith,
  )
