-- ===== src/BPlusTree/Insert/Halves.antt =====
-- A leaf that was the root in src/bplustree/bplus_tree.go, split in two: the tree of both halves under a new
-- root.
use pucrs_metadata_db.Base.{
  ℕ, suc, ◌+◌, ◌≤◌, ◌<◌, ◌≡◌, ◌≢◌, refl, sym, ap, ◌∙◌, arith, some, List, take, drop,
  take-append-drop, get_elem?, get_elem?-drop, ok,
}
use pucrs_metadata_db.BPlusTree.Entries.{LeafEntry}
use pucrs_metadata_db.BPlusTree.Adapter.{leaf, Node, InMemoryAdapter, node_of}
use pucrs_metadata_db.BPlusTree.NodeOps.{key_at}
use pucrs_metadata_db.BPlusTree.Find.{find}
use pucrs_metadata_db.BPlusTree.Find.SearchTree.{IsSearchTree}
use pucrs_metadata_db.BPlusTree.Find.Descent.{get_elem?-map}
use pucrs_metadata_db.BPlusTree.Insert.{allocate_new_root}
use pucrs_metadata_db.BPlusTree.Insert.Lookup.{key_list, item_of}
use pucrs_metadata_db.BPlusTree.Insert.Answer.{answer_of}
use pucrs_metadata_db.BPlusTree.Insert.Nodes.{
  rooted, allocate_new_root-rooted, rooted_left, rooted_right, rooted_root,
}
use pucrs_metadata_db.BPlusTree.Insert.Split.{IsSplit}
use pucrs_metadata_db.BPlusTree.Insert.Ascending.{
  Ascending, Ascending-InOrder, taken_entry, take-Ascending, drop-Ascending,
}
use pucrs_metadata_db.BPlusTree.Insert.TwoLeaves.{two_leaves, two_leaves_find}

-- The halves of `whole` in the root leaf of `a` and in a new leaf.
module _ {Item : Type 0} (a s' : InMemoryAdapter Item) (hi half : ℕ) (old : Node Item)
    (whole : List (LeafEntry Item)) (up : Ascending (key_list whole))
    (inside : (i : ℕ) (e : LeafEntry Item) → get_elem? whole i ≡ some e → e.key < hi)
    (split : IsSplit a s' a.root_id old (take half whole) (drop half whole))
    (old_root : a.root_id < a.next_node_id) (small_ids : a.next_node_id + 1 < 65536)
    (e : LeafEntry Item) (first : get_elem? (drop half whole) 0 ≡ some e) where
  abbrev x : Node Item
  x = record old { entries = leaf (take half whole); right_id = a.next_node_id }

  abbrev y : Node Item
  y = record { parent_id = 0; left_id = a.root_id; right_id = 0; entries = leaf (drop half whole) }

  pub next_is : s'.next_node_id ≡ a.next_node_id + 1
  next_is = omega (arith, split.next_id, small_ids)

  pub apart :
      (a.root_id ≢ a.next_node_id)
      × (a.root_id ≢ s'.next_node_id)
      × (a.next_node_id ≢ s'.next_node_id)
  apart = (
    λ h. omega (arith, h, old_root),
    λ h. omega (arith, h, next_is, old_root),
    λ h. omega (arith, h, next_is),
  )

  abbrev pub final : InMemoryAdapter Item
  final =
      rooted s' e.key a.root_id a.next_node_id x y split.left_there split.right_there apart.0
        apart.1 apart.2

  pub pivot_read : key_at a.next_node_id 0 s' ≡ ok (e.key, s')
  unfolding key_at node_of
  pivot_read = ground (
    arith,
    split.right_there,
    get_elem?-map (λ (e : LeafEntry Item). e.key) (drop half whole) 0 e first,
  )

  at_half : get_elem? whole (half + 0) ≡ some e
  at_half = sym (get_elem?-drop half whole 0) ∙ first

  key_at_half : get_elem? (key_list whole) (half + 0) ≡ some e.key
  key_at_half = get_elem?-map (λ (e : LeafEntry Item). e.key) whole (half + 0) e at_half

  left_below : (i : ℕ) (f : LeafEntry Item) → get_elem? (take half whole) i ≡ some f → f.key < e.key
  left_below i f h =
      let (less, there) = taken_entry whole up half i f h in
      up i (half + 0) f.key e.key (omega arith)
        (get_elem?-map (λ (e : LeafEntry Item). e.key) whole i f there) key_at_half

  right_above :
      (i : ℕ) (f : LeafEntry Item)
      → get_elem? (drop half whole) i ≡ some f
      → (e.key ≤ f.key) × (f.key < hi)
  right_above i f h =
      let there = sym (get_elem?-drop half whole i) ∙ h in
      let key_there = get_elem?-map (λ (e : LeafEntry Item). e.key) whole (half + i) f there in
      (
        Ascending-InOrder (key_list whole) up (half + 0) (half + i) e.key f.key (omega arith)
            key_at_half key_there,
        inside (half + i) f there,
      )

  pub in_tree : IsSearchTree final 1 final.root_id 0 hi
  in_tree =
      two_leaves final a.root_id a.next_node_id e.key hi _ _ _ (take half whole) (drop half whole)
        (rooted_left s' e.key a.root_id a.next_node_id x y split.left_there split.right_there
          apart.0 apart.1 apart.2)
        (rooted_right s' e.key a.root_id a.next_node_id x y split.left_there split.right_there
          apart.0 apart.1 apart.2)
        (rooted_root s' e.key a.root_id a.next_node_id x y split.left_there split.right_there
          apart.0 apart.1 apart.2)
        refl refl refl (take-Ascending whole up half) (drop-Ascending whole up half) left_below
        right_above

  pub finds : (m k : ℕ) → k < hi → answer_of (find (suc (suc m)) k final) ≡ item_of k whole
  finds m k small =
      two_leaves_find final a.root_id a.next_node_id e.key hi _ _ _ (take half whole)
        (drop half whole)
        (rooted_left s' e.key a.root_id a.next_node_id x y split.left_there split.right_there
          apart.0 apart.1 apart.2)
        (rooted_right s' e.key a.root_id a.next_node_id x y split.left_there split.right_there
          apart.0 apart.1 apart.2)
        (rooted_root s' e.key a.root_id a.next_node_id x y split.left_there split.right_there
          apart.0 apart.1 apart.2)
        refl refl refl (take-Ascending whole up half) (drop-Ascending whole up half) left_below
        right_above m k small
      ∙ ap (item_of k) (take-append-drop half whole)

  pub allocates : allocate_new_root e.key a.root_id a.next_node_id s' ≡ ok (s'.next_node_id, final)
  allocates =
      allocate_new_root-rooted s' e.key a.root_id a.next_node_id x y split.left_there
        split.right_there apart.0 apart.1 apart.2
