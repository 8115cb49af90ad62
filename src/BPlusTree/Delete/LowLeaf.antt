-- ===== src/BPlusTree/Delete/LowLeaf.antt =====
-- `Delete` of src/bplustree/bplus_tree.go from a left leaf that runs low, next to a right leaf that lends an
-- entry.
use pucrs_metadata_db.Base.{
  ℕ, suc, ◌+◌, ◌≤◌, ◌<◌, ◌≡◌, refl, sym, ap, ◌∙◌, arith, Bool, true, ◌==◌, ==_of_ne, if◌then◌else◌,
  none, some, List, ◌∷◌, length, get_elem?, get_elem?-lt_length, ok,
}
use pucrs_metadata_db.BPlusTree.Entries.{LeafEntry, without_at}
use pucrs_metadata_db.BPlusTree.Adapter.{leaf, InMemoryAdapter, is_root}
use pucrs_metadata_db.BPlusTree.Find.{search, find_in, find_leaf_for_key, find}
use pucrs_metadata_db.BPlusTree.Find.SearchTree.{IsLeafNode, IsSearchTree}
use pucrs_metadata_db.BPlusTree.Find.Descent.{on_node}
use pucrs_metadata_db.BPlusTree.Insert.{BPlusTree}
use pucrs_metadata_db.BPlusTree.Insert.Lookup.{key_list, pick, item_of-search}
use pucrs_metadata_db.BPlusTree.Insert.Answer.{answer_of, found_flag}
use pucrs_metadata_db.BPlusTree.Insert.Changed.{root_here, old_item}
use pucrs_metadata_db.BPlusTree.Insert.Room.{pick-hit}
use pucrs_metadata_db.BPlusTree.Insert.Ascending.{Ascending-InOrder}
use pucrs_metadata_db.BPlusTree.Insert.TwoLeaves.{down}
use pucrs_metadata_db.BPlusTree.Delete.{delete, delete_from_leaf}
use pucrs_metadata_db.BPlusTree.Delete.Lookup.{length-without_at, hit_entry}
use pucrs_metadata_db.BPlusTree.Delete.Borrow.{
  IsPair, delete_at-put, total_keys-leaf, sibling, lends, pipes,
}
use pucrs_metadata_db.BPlusTree.Delete.Refill.{
  IsDivided, pair_tree, pair_find, shrunk, shrunk-IsPair, filled, filled-IsPair,
}
use pucrs_metadata_db.BPlusTree.Delete.Divided.{filled-IsDivided, left_over_item}

module _ {Item : Type 0} (t : BPlusTree) {c : InMemoryAdapter Item} {l r pivot hi : ℕ}
    {left : List (LeafEntry Item)} {first second : LeafEntry Item} {right : List (LeafEntry Item)}
    (v : IsPair c l r pivot left (first ∷ second ∷ right))
    (o : IsDivided hi pivot left (first ∷ second ∷ right)) (m key : ℕ) (low : key < pivot) where
  small : key < hi
  small = omega (arith, low, (o.above 0 first refl).0, (o.above 0 first refl).1)

  abbrev p : ℕ
  p = search (key_list left) key

  abbrev here_leaf : IsLeafNode c l 0 pivot
  here_leaf = record {
    entries = left;
    stored = record { node = v.left_node; found = v.at_left; shape = v.left_shape };
    in_order = Ascending-InOrder (key_list left) o.up_left;
    inside = λ i e h. (omega arith, o.below i e h);
  }

  walk : find_leaf_for_key (suc (suc m)) c.root_id key c ≡ ok (l, c)
  walk =
      down c l r pivot hi v.left_node v.right_node v.root_node left (first ∷ second ∷ right)
        v.at_left v.at_right v.at_root v.left_shape v.right_shape v.root_shape o.up_left o.up_right
        o.below o.above m key small l left (ground (arith, low)) here_leaf.stored

  gone_from :
      (e : LeafEntry Item)
      → get_elem? left p ≡ some e
      → length left ≡ t.half_leaf_capacity
      → t.half_leaf_capacity < length right + 2
      → (above : pivot ≤ first.key)
      → delete_from_leaf t (suc (suc m)) l p c ≡ ok (tt, filled (shrunk-IsPair v p) above)
  unfolding delete_from_leaf is_root
  gone_from e h few many above =
      let w = shrunk-IsPair v p in
      let c' = shrunk v p in
      let size = length-without_at left p (get_elem?-lt_length left p e h) in
      let total = total_keys-leaf c' l w.left_node w.at_left (without_at left p) w.left_shape in
      let more = get_elem?-lt_length left p e h in
      let not_root = ==_of_ne c.root_id l (λ q. v.left_apart (sym q)) in
      let right_is = sibling c' l r pivot (without_at left p) first second right w above in
      let lend =
        lends c' l r pivot (without_at left p) first second right w above t.half_leaf_capacity
          many in
      let pipe = pipes c' l r pivot (without_at left p) first second right w above in
      ground (
        arith,
        delete_at-put c l v.left_node v.at_left left v.left_shape p e h,
        total,
        size,
        few,
        more,
        not_root,
        right_is,
        lend,
        pipe,
      )

  -- Let a root hold two leaves that are linked as siblings, their keys ascending and divided by
  -- `pivot`, with `hi` above them. Let `key` be below `pivot`, let `Find` find it, and let
  -- the left leaf have just half of its capacity of entries and the right one more than that and at
  -- least two. Then `Delete` succeeds and leaves a search tree of the same depth and bounds, in
  -- which `Find` finds nothing for `key`, and for every other key below `hi` what it found before.
  pub find-delete_borrow :
      (old : Item)
      → find (suc (suc m)) key c ≡ ok (old, c)
      → length left ≡ t.half_leaf_capacity
      → t.half_leaf_capacity < length right + 2
      → (c' : InMemoryAdapter Item) × (delete t (suc (suc m)) key c ≡ ok (tt, c'))
        × IsSearchTree c' 1 c'.root_id 0 hi
        × ((n k : ℕ)
            → k < hi
            → answer_of (find (suc (suc n)) k c')
              ≡ (if k == key then none else answer_of (find (suc (suc n)) k c)))
  unfolding delete
  find-delete_borrow old found few many =
      let first_above = (o.above 0 first refl).0 in
      let root = root_here c (suc (suc m)) 1 hi (omega arith) (pair_tree v o) in
      let picked : pick key (get_elem? left p) ≡ some old =
        sym (item_of-search key left here_leaf.in_order)
        ∙ sym (
            old_item c (suc (suc m)) 1 hi (omega arith) (pair_tree v o) key l 0 pivot walk
              here_leaf)
        ∙ ap answer_of found in
      let (e, h, same) = hit_entry key (get_elem? left p) old picked in
      let flag : find_in (key_list left) key ≡ (p, true) =
        found_flag c (suc (suc m)) key l left root walk here_leaf.stored here_leaf.in_order
        ∙ ap (λ (b : Bool). (p, b)) ((pick-hit key (get_elem? left p)).1 old picked) in
      let on = on_node c l (leaf left) here_leaf.stored key ∙ ap (λ r. ok (r, c)) flag in
      (
        filled (shrunk-IsPair v p) first_above,
        ground (arith, root, walk, on, gone_from e h few many first_above),
        pair_tree (filled-IsPair (shrunk-IsPair v p) first_above) (filled-IsDivided o p),
        λ n k less.
            pair_find (filled-IsPair (shrunk-IsPair v p) first_above) (filled-IsDivided o p) n k
              less
            ∙ left_over_item o p key e h same k
            ∙ ap (λ x. if k == key then none else x) (sym (pair_find v o n k less)),
      )
