-- ===== src/BPlusTree/Insert/RootSplit.antt =====
-- `Insert` of src/bplustree/bplus_tree.go into a tree of one leaf that is full: it is split, under a new
-- root.
use pucrs_metadata_db.Base.{
  ℕ, suc, ◌+◌, ◌-◌, ◌≤◌, ◌<◌, ◌≡◌, ◌≢◌, refl, sym, ap, subst, ◌∙◌, arith, true, false, ◌==◌, ==_iff,
  ==_of_ne, if◌then◌else◌, none, some, List, ◌∷◌, length, length-append, length-take, length-drop,
  take, drop, get_elem?, ok, err, key_not_found,
}
use native.Mathlib.Decide.{ℕ_discrete}
use pucrs_metadata_db.BPlusTree.Entries.{LeafEntry, with_at}
use pucrs_metadata_db.BPlusTree.Adapter.{leaf, InMemoryAdapter, node_of, is_root}
use pucrs_metadata_db.BPlusTree.NodeOps.{total_keys}
use pucrs_metadata_db.BPlusTree.Find.{search, find_in, find_leaf_for_key, find}
use pucrs_metadata_db.BPlusTree.Find.Search.{search-Splits, elem_in}
use pucrs_metadata_db.BPlusTree.Find.SearchTree.{IsLeafNode, IsSearchTree}
use pucrs_metadata_db.BPlusTree.Find.Descent.{length-map, on_node, leaf_is_leaf}
use pucrs_metadata_db.BPlusTree.Insert.{BPlusTree, insert, insert_on_leaf, leaf_split}
use pucrs_metadata_db.BPlusTree.Insert.Lookup.{
  key_list, item_of, item_of-search, map-with_at, get_elem?-with_at, item_of-with_at_other,
  item_of-with_at_self,
}
use pucrs_metadata_db.BPlusTree.Insert.Answer.{answer_of, found_flag}
use pucrs_metadata_db.BPlusTree.Insert.Changed.{root_here, old_item}
use pucrs_metadata_db.BPlusTree.Insert.Room.{pick-hit}
use pucrs_metadata_db.BPlusTree.Insert.Split.{IsSplit, leaf_split-IsSplit}
use pucrs_metadata_db.BPlusTree.Insert.Ascending.{Ascending, with_at-Ascending, absent_keys}
use pucrs_metadata_db.BPlusTree.Insert.Halves

-- A full leaf that is the root, with IDs in use that are below the next one, and without a right sibling.
pub record IsFullRoot {Item : Type 0} (t : BPlusTree) (a : InMemoryAdapter Item) (hi : ℕ)
    (n : IsLeafNode a a.root_id 0 hi) : Type 0 where
  pub full : length n.entries ≡ t.leaf_capacity
  pub some_half : 0 < t.half_leaf_capacity
  pub half : t.half_leaf_capacity ≤ t.leaf_capacity
  pub ascending : Ascending (key_list n.entries)
  pub old_root : a.root_id < a.next_node_id
  pub small_ids : a.next_node_id + 1 < 65536
  pub old_right : n.stored.node.right_id < a.next_node_id
  pub other_right : n.stored.node.right_id ≢ a.root_id
  pub no_right : a.nodes n.stored.node.right_id ≡ none

module _ {Item : Type 0} (t : BPlusTree) (a : InMemoryAdapter Item) (fuel hi : ℕ)
    (n : IsLeafNode a a.root_id 0 hi) (is_full : IsFullRoot t a hi n) (key : ℕ) (item : Item)
    (below : key < hi) (miss : find (suc fuel) key a ≡ err key_not_found) where
  abbrev new : LeafEntry Item
  new = record { key = key; item = item }

  abbrev position : ℕ
  position = search (key_list n.entries) key

  abbrev whole : List (LeafEntry Item)
  whole = with_at n.entries position new

  abbrev half : ℕ
  half = t.half_leaf_capacity

  walk : find_leaf_for_key (suc fuel) a.root_id key a ≡ ok (a.root_id, a)
  unfolding find_leaf_for_key
  walk = let is_here = leaf_is_leaf a a.root_id n.entries n.stored in ground (arith, is_here)

  absent : item_of key n.entries ≡ none
  absent =
      sym (old_item a (suc fuel) 0 hi (omega arith) n key a.root_id 0 hi walk n) ∙ ap answer_of miss

  not_found : find_in (key_list n.entries) key ≡ (position, false)
  not_found =
      found_flag a (suc fuel) key a.root_id n.entries (root_here a (suc fuel) 0 hi (omega arith) n)
        walk n.stored n.in_order
      ∙ ap (λ x. (position, x))
          ((pick-hit key (get_elem? n.entries position)).0
            (sym (item_of-search key n.entries n.in_order) ∙ absent))

  keys_up : Ascending (key_list whole)
  keys_up =
      subst (λ keys. Ascending keys) (sym (map-with_at n.entries position new))
        (with_at-Ascending (key_list n.entries) key position is_full.ascending
          (search-Splits (key_list n.entries) key n.in_order) (absent_keys n.entries key absent))

  in_entries : position ≤ length n.entries
  in_entries = omega (
    arith,
    (search-Splits (key_list n.entries) key n.in_order).in_keys,
    length-map (λ (e : LeafEntry Item). e.key) n.entries,
  )

  keys_small : (i : ℕ) (e : LeafEntry Item) → get_elem? whole i ≡ some e → e.key < hi
  keys_small i e h = ground (
    arith,
    get_elem?-with_at n.entries position new i in_entries,
    n.inside i e,
    n.inside (i - 1) e,
    below,
    h,
  )

  length-whole : length whole ≡ length n.entries + 1
  length-whole = omega (
    arith,
    length-append (take position n.entries) (new ∷ drop position n.entries),
    length-take position n.entries,
    length-drop position n.entries,
    in_entries,
  )

  -- The first entry of the right leaf.
  pivot_entry : (e : LeafEntry Item) × (get_elem? (drop half whole) 0 ≡ some e)
  pivot_entry =
      elem_in (drop half whole) 0
        (omega (arith, length-drop half whole, length-whole, is_full.full, is_full.half))

  module _ (s' : InMemoryAdapter Item)
      (split : IsSplit a s' a.root_id n.stored.node (take half whole) (drop half whole))
      (e : LeafEntry Item) (first : get_elem? (drop half whole) 0 ≡ some e) where
    abbrev final : InMemoryAdapter Item
    final =
        Halves.final a s' hi half n.stored.node whole keys_up keys_small split is_full.old_root
          is_full.small_ids e first

    root_read : is_root a.root_id s' ≡ ok (true, s')
    unfolding is_root
    root_read = rw ((==_iff s'.root_id a.root_id).1 split.same_root) refl

    leaf_total : total_keys a.root_id a ≡ ok (length n.entries, a)
    unfolding total_keys node_of
    leaf_total = ground (
      arith,
      n.stored.found,
      n.stored.shape,
      length-map (λ (e : LeafEntry Item). e.key) n.entries,
    )

    runs :
        leaf_split t a.root_id position new a ≡ ok (a.next_node_id, s')
        → insert t (suc fuel) key item a ≡ ok (tt, final)
    unfolding insert insert_on_leaf
    runs splits =
        let on =
          on_node a a.root_id (leaf n.entries) n.stored key ∙ ap (λ r. ok (r, a)) not_found in
        let pivot_read =
          Halves.pivot_read a s' hi half n.stored.node whole keys_up keys_small split
            is_full.old_root is_full.small_ids e first in
        let allocates =
          Halves.allocates a s' hi half n.stored.node whole keys_up keys_small split
            is_full.old_root is_full.small_ids e first in
        ground (
          arith,
          root_here a (suc fuel) 0 hi (omega arith) n,
          walk,
          on,
          leaf_total,
          is_full.full,
          splits,
          pivot_read,
          root_read,
          allocates,
        )

  whole_item : (k : ℕ) → item_of k whole ≡ (if k == key then some item else item_of k n.entries)
  whole_item k = elim (ℕ_discrete k key) [
    | yes e ↦
        rw ((==_iff k key).1 e)
          (ap (λ x. item_of x whole) e ∙ item_of-with_at_self n.entries position new absent)
    | no ne ↦ rw (==_of_ne k key ne) (item_of-with_at_other n.entries position new k ne)
  ]

  -- Let the adapter hold a tree of one leaf, with strictly increasing keys below `hi`, that is full, with at
  -- least two entries to a leaf, and with IDs that leave room for two more nodes; let `Find` not find the key, which is below `hi`.
  -- Then `Insert` succeeds and leaves a search tree of two leaves under a new root. In it `Find`, with
  -- fuel for two nodes, gives the item for that key, and for every other key below `hi` what it gave
  -- before.
  pub find-insert_root_split :
      (a' : InMemoryAdapter Item) × (insert t (suc fuel) key item a ≡ ok (tt, a'))
      × IsSearchTree a' 1 a'.root_id 0 hi
      × ((m k : ℕ)
          → k < hi
          → answer_of (find (suc (suc m)) k a')
            ≡ (if k == key then some item else answer_of (find (suc fuel) k a)))
  unfolding find_leaf_for_key
  find-insert_root_split =
      let (s', splits, split) =
        leaf_split-IsSplit t a a.root_id n.stored.node n.stored.found n.entries n.stored.shape
          (λ h. omega (arith, h, is_full.old_root)) is_full.other_right
          (λ h. omega (arith, h, is_full.old_right)) is_full.no_right new position is_full.some_half
          (omega (arith, is_full.half, is_full.full)) in_entries in
      let (e, first) = pivot_entry in
      (
        final s' split e first,
        runs s' split e first splits,
        Halves.in_tree a s' hi half n.stored.node whole keys_up keys_small split is_full.old_root
            is_full.small_ids e first,
        λ m k small.
            let is_here = leaf_is_leaf a a.root_id n.entries n.stored in
            let walk_k : find_leaf_for_key (suc fuel) a.root_id k a ≡ ok (a.root_id, a) =
              ground (arith, is_here) in
            Halves.finds a s' hi half n.stored.node whole keys_up keys_small split is_full.old_root
              is_full.small_ids e first m k small
            ∙ whole_item k
            ∙ ap (λ x. if k == key then some item else x)
                (sym (old_item a (suc fuel) 0 hi (omega arith) n k a.root_id 0 hi walk_k n)),
      )
