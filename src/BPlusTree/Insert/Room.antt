-- ===== src/BPlusTree/Insert/Room.antt =====
-- `Insert` of src/bplustree/bplus_tree.go where the leaf of the key has room.
use pucrs_metadata_db.Base.{
  ℕ, ◌<◌, ◌≡◌, refl, sym, ap, ◌∙◌, arith, Bool, true, false, ◌==◌, if◌then◌else◌, Option, none,
  some, List, length, get_elem?, ok, err, key_not_found, key_exists,
}
use pucrs_metadata_db.BPlusTree.Entries.{LeafEntry}
use pucrs_metadata_db.BPlusTree.Adapter.{leaf, InMemoryAdapter}
use pucrs_metadata_db.BPlusTree.Find.{search, find_in, find_leaf_for_key, find}
use pucrs_metadata_db.BPlusTree.Find.SearchTree.{Stored, IsLeafNode, IsSearchTree}
use pucrs_metadata_db.BPlusTree.Find.Descent.{on_node}
use pucrs_metadata_db.BPlusTree.Find.Walk.{find_leaf_for_key-ends}
use pucrs_metadata_db.BPlusTree.Insert.{BPlusTree, insert}
use pucrs_metadata_db.BPlusTree.Insert.Lookup.{key_list, item_of, pick, item_of-search}
use pucrs_metadata_db.BPlusTree.Insert.Answer.{answer_of, given, hit, found_flag}
use pucrs_metadata_db.BPlusTree.Insert.Changed.{root_here, old_item}
use pucrs_metadata_db.BPlusTree.Insert.AtLeaf.{insert_here, find_given_there}

pub pick-hit :
    {Item : Type 0} (key : ℕ) (x : Option (LeafEntry Item))
    → ((pick key x ≡ none) → hit key x ≡ false)
      × ((item : Item) → pick key x ≡ some item → hit key x ≡ true)
pick-hit key none = (λ h. refl, λ item h. cc)
pick-hit key (some e) = (λ h. ground arith, λ item h. ground arith)

module _ {Item : Type 0} (t : BPlusTree) (a : InMemoryAdapter Item) (fuel d hi : ℕ)
    (enough : d < fuel) (tree : IsSearchTree a d a.root_id 0 hi) (key : ℕ) (item : Item)
    (below : key < hi) where
  -- What `findOnNode` says of the key on its leaf, by what `Find` answers.
  module _ (l lo' hi' : ℕ) (n : IsLeafNode a l lo' hi')
      (walk : find_leaf_for_key fuel a.root_id key a ≡ ok (l, a)) where
    here : item_of key n.entries ≡ answer_of (find fuel key a)
    here = sym (old_item a fuel d hi enough tree key l lo' hi' walk n)

    found_as :
        (b : Bool)
        → hit key (get_elem? n.entries (search (key_list n.entries) key)) ≡ b
        → find_in (key_list n.entries) key ≡ (search (key_list n.entries) key, b)
    found_as b h =
        found_flag a fuel key l n.entries (root_here a fuel d hi enough tree) walk n.stored
          n.in_order
        ∙ ap (λ x. (search (key_list n.entries) key, x)) h

  -- Let the adapter hold a search tree from 0 up to `hi`, with fuel for one node more than its depth, and
  -- let `Find` not find the key, which is below `hi`, and the leaf that the walk ends at have room. Then
  -- `Insert` succeeds. Before it and after it `Find` of every key below `hi` ends with an item or with the
  -- error that there is none, and leaves the adapter as it is: after it with the item for that key, and
  -- for every other key with the answer of before.
  pub find-insert :
      find fuel key a ≡ err key_not_found
      → ((l : ℕ) (es : List (LeafEntry Item))
          → find_leaf_for_key fuel a.root_id key a ≡ ok (l, a)
          → Stored a l (leaf es)
          → length es < t.leaf_capacity)
      → (a' : InMemoryAdapter Item) × (insert t fuel key item a ≡ ok (tt, a'))
        × ((k : ℕ)
            → k < hi
            → (old : Option Item) × (find fuel k a ≡ given a old)
              × (find fuel k a' ≡ given a' (if k == key then some item else old)))
  find-insert miss room =
      let (l, lo', hi', walk, n, _, _) =
        find_leaf_for_key-ends a key fuel d a.root_id 0 hi enough tree (omega arith) below in
      let absent : item_of key n.entries ≡ none = here l lo' hi' n walk ∙ ap answer_of miss in
      let no_hit =
        (pick-hit key (get_elem? n.entries (search (key_list n.entries) key))).0
          (sym (item_of-search key n.entries n.in_order) ∙ absent) in
      (
        _,
        insert_here t a fuel d hi enough tree key item below l lo' hi' n walk
            (room l n.entries walk n.stored) (found_as l lo' hi' n walk false no_hit),
        find_given_there t a fuel d hi enough tree key item below l lo' hi' n walk absent,
      )

  -- A key that `Find` finds is not inserted again: `Insert` returns an error.
  pub insert_existing :
      (old : Item) → find fuel key a ≡ ok (old, a) → insert t fuel key item a ≡ err key_exists
  unfolding insert
  insert_existing old h =
      let (l, lo', hi', walk, n, _, _) =
        find_leaf_for_key-ends a key fuel d a.root_id 0 hi enough tree (omega arith) below in
      let present : item_of key n.entries ≡ some old = here l lo' hi' n walk ∙ ap answer_of h in
      let is_hit =
        (pick-hit key (get_elem? n.entries (search (key_list n.entries) key))).1 old
          (sym (item_of-search key n.entries n.in_order) ∙ present) in
      let found =
        on_node a l (leaf n.entries) n.stored key
        ∙ ap (λ r. ok (r, a)) (found_as l lo' hi' n walk true is_hit) in
      ground (arith, root_here a fuel d hi enough tree, walk, found)
